-- ===== src/Router/Lifecycle.antt =====
-- Starting and stopping the router (router.cpp).
use ipb.Base.{◌≡◌, refl, sym, ap, ◌∙◌, inl, inr, false, ◌&&◌, List, [], ◌∷◌, if_cases, Bool-cases}
use ipb.Router.{Code, Router, Starts, start, stop, is_healthy}
use ipb.Router.Routing.{is_ok}

-- The components run when the router does.
abbrev pub IsConsistent : Router → Type 0
IsConsistent r =
    (r.bus_running ≡ r.running)
    × (r.scheduler_running ≡ r.running)
    × (r.registry_running ≡ r.running)
    × (r.subscribed ≡ r.running)

-- Calls, each `start` with what the components answer.
pub data Call : Type 0 where
  starting : Starts → Call
  stopping : Call

unfoldable pub step : Call → Router → Code × Router
step (starting s) r = start s r
step stopping r = stop r

unfoldable pub after : List Call → Router → Router
after [] r = r
after (call ∷ calls) r = after calls (step call r).1

-- The components agree with the router, which runs if the answer is success.
abbrev Answered : Code × Router → Type 0
Answered (code, r) = IsConsistent r × (r.running ≡ is_ok code)

start_lem : (s : Starts) (r : Router) → IsConsistent r → Answered (start s r)
unfolding start
start_lem s r (hb, hs, hr, hu) =
    if_cases Answered r.running (λ on. ((hb, hs, hr, hu), on))
      (λ off.
        if_cases Answered s.bus
          (λ b.
            if_cases Answered s.scheduler
              (λ c.
                if_cases Answered s.registry (λ d. ((refl, refl, refl, refl), refl))
                  (λ d. ((refl, refl, hr ∙ off, hu ∙ off), refl)))
              (λ c. ((refl, hs ∙ off, hr ∙ off, hu ∙ off), refl)))
          (λ b. ((hb ∙ off, hs ∙ off, hr ∙ off, hu ∙ off), refl)))

stop-IsConsistent :
    (r : Router) → IsConsistent r → IsConsistent (stop r).1 × ((stop r).1.running ≡ false)
unfolding stop
stop-IsConsistent r h =
    if_cases (λ (p : Code × Router). IsConsistent p.1 × (p.1.running ≡ false)) r.running
      (λ on. ((refl, refl, refl, refl), refl)) (λ off. (h, off))

step-IsConsistent : (call : Call) (r : Router) → IsConsistent r → IsConsistent (step call r).1
unfolding step
step-IsConsistent (starting s) r h = (start_lem s r h).0
step-IsConsistent stopping r h = (stop-IsConsistent r h).0

after-IsConsistent :
    (calls : List Call) (r : Router) → IsConsistent r → IsConsistent (after calls r)
unfolding after
after-IsConsistent [] r h = h
after-IsConsistent (call ∷ calls) r h =
    after-IsConsistent calls (step call r).1 (step-IsConsistent call r h)

is_healthy-running : (r : Router) → IsConsistent r → is_healthy r ≡ r.running
unfolding is_healthy
is_healthy-running r (hb, hs, hr, hu) = elim (Bool-cases r.running) [
  | inl e ↦
      ap (λ b. b && (r.bus_running && (r.scheduler_running && r.registry_running))) e
      ∙ (ap (λ b. b && (r.scheduler_running && r.registry_running)) (hb ∙ e)
          ∙ (ap (λ b. b && r.registry_running) (hs ∙ e) ∙ hr))
  | inr e ↦ ap (λ b. b && (r.bus_running && (r.scheduler_running && r.registry_running))) e ∙ sym e
]

-- After any sequence of starts and stops of a router whose components run when it does, whatever the
-- components' own starts answer, the message bus, the scheduler, the registry and the subscription run
-- exactly when the router does, and so `is_healthy` says; one more `start` leaves it running exactly if it
-- answers success, and one more `stop` leaves it not running.
pub after_lem :
    (calls : List Call) (s : Starts) (r : Router)
    → IsConsistent r
    → let r' = after calls r in
      IsConsistent r'
      × (is_healthy r' ≡ r'.running)
      × ((start s r').1.running ≡ is_ok (start s r').0)
      × ((stop r').1.running ≡ false)
after_lem calls s r h =
    let r' = after calls r in
    let h' = after-IsConsistent calls r h in
    (h', is_healthy-running r' h', (start_lem s r' h').1, (stop-IsConsistent r' h').1)
