-- ===== src/Sinks/Registry/Writing/Effects.antt =====
-- What one write does to the registry (sink_registry.cpp), branch by branch, and how a failing write
-- changes the health of its sink.
use Prim.Native.String.{String}
use ipb.Base.{ap, ℕ, ◌<◌, ◌≡◌, refl, ◌≢◌, true, false, none, some, if◌then◌else◌, ltb, arith, ◌∙◌}
use ipb.Base.Int.{ℤ, pos, ◌+ℤ◌, ◌-ℤ◌, int_laws}
use ipb.Sinks.Info.{SinkInfo, is_available, degraded, unhealthy}
use ipb.Sinks.Registry.{Registry, add64, find, update}
use ipb.Sinks.Registry.Lookup.{find-update_self, find-update_ne}
use ipb.Sinks.Registry.Writing.{
  Outcome, begin_write, finish_write, write_batch_to_sink, write_to_sink, written, write_failed,
  sink_not_found, sink_disabled,
}
use ipb.Sinks.Registry.Writing.Laws.{served, served-KeepsId}

pending_back : (a : ℤ) (n : ℕ) → a +ℤ pos n -ℤ pos n ≡ a
pending_back a n = omega int_laws

module _ (id : String) (n : ℕ) (o : Outcome) (r : Registry) where
  not_found : find id r.sinks ≡ none → write_batch_to_sink id n o r ≡ (sink_not_found, r)
  unfolding write_batch_to_sink
  not_found e = rw (e, write_batch_to_sink)

  disabled :
      (s : SinkInfo)
      → find id r.sinks ≡ some s
      → s.enabled ≡ false
      → write_batch_to_sink id n o r ≡ (sink_disabled, r)
  unfolding write_batch_to_sink
  disabled s e off = rw (e, write_batch_to_sink) (rw off)

  done :
      (s : SinkInfo)
      → find id r.sinks ≡ some s
      → s.enabled ≡ true
      → write_batch_to_sink id n o r ≡ (
        if o.success then written else write_failed,
        record r { sinks = update id (served r.unhealthy_threshold n o) r.sinks },
      )
  unfolding write_batch_to_sink
  done s e on = rw (e, write_batch_to_sink) (rw on)

-- The record of a sink after `n` data points were written to it.
abbrev pub after : ℕ → ℕ → Outcome → SinkInfo → SinkInfo
after threshold n o s =
    if o.success
    then record s {
      messages_sent = add64 n s.messages_sent;
      total_latency_ns = s.total_latency_ns +ℤ o.elapsed;
    }
    else record s {
      messages_failed = add64 n s.messages_failed;
      health = if ltb threshold (add64 n s.messages_failed) then degraded else s.health;
    }

served-eq-after :
    (threshold n : ℕ) (o : Outcome) (s : SinkInfo) → served threshold n o s ≡ after threshold n o s
unfolding begin_write finish_write
served-eq-after threshold n o s = ground (arith, pending_back s.pending_count n)

-- A write to an enabled sink answers what the sink answers, counts the data points as sent or failed,
-- adds the time of a success, puts a sink with too many failures to DEGRADED, leaves the pending
-- count and the rest of the record as they were, and leaves every other sink alone.
pub write_batch-find :
    (id : String) (n : ℕ) (o : Outcome) (r : Registry) (s : SinkInfo)
    → find id r.sinks ≡ some s
    → s.enabled ≡ true
    → let (w, r') = write_batch_to_sink id n o r in
      (w ≡ (if o.success then written else write_failed))
      × (find id r'.sinks ≡ some (after r.unhealthy_threshold n o s))
      × ((j : String) → id ≢ j → find j r'.sinks ≡ find j r.sinks)
write_batch-find id n o r s e on = rw (done id n o r s e on) (
  refl,
  find-update_self id (served r.unhealthy_threshold n o) (served-KeepsId r.unhealthy_threshold n o)
        r.sinks s e
      ∙ ap some (served-eq-after r.unhealthy_threshold n o s),
  λ j ne.
      find-update_ne id (served r.unhealthy_threshold n o)
        (served-KeepsId r.unhealthy_threshold n o) j r.sinks ne,
)

-- The health that a failed write gives its sink does not depend on the one it had: an enabled sink
-- that is UNHEALTHY, with failures beyond the threshold, is DEGRADED after one more failed write, and
-- so again among those that the balancers choose from.
pub failed_write_revives :
    (id : String) (o : Outcome) (r : Registry) (s : SinkInfo)
    → find id r.sinks ≡ some s
    → s.enabled ≡ true
    → s.health ≡ unhealthy
    → o.success ≡ false
    → r.unhealthy_threshold < add64 1 s.messages_failed
    → (is_available s ≡ false)
      × (t : SinkInfo) × (find id (write_to_sink id o r).1.sinks ≡ some t)
      × (is_available t ≡ true)
unfolding write_to_sink
failed_write_revives id o r s e on sick failing many =
    let found = (write_batch-find id 1 o r s e on).1 in
    (rw (on, sick), after r.unhealthy_threshold 1 o s, found, ground arith)
