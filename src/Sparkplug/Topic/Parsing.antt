-- ===== src/Sparkplug/Topic/Parsing.antt =====
-- What `SparkplugTopic::to_string` writes, `SparkplugTopic::parse` reads back (sparkplug_topic.cpp).
use ipb.Base.{
  ℕ, ◌<◌, ◌≡◌, refl, ap, ◌∙◌, inl, inr, List, [], ◌∷◌, ◌++◌, some, if◌then◌else◌, length, arith,
  Bool-cases,
}
use mathlib.Core.List.{append-nil}
use ipb.MessageBus.Topic.{is_empty, slash}
use ipb.Sparkplug.Topic.{
  MessageType, nbirth, ndeath, ndata, ncmd, dbirth, ddeath, ddata, dcmd, state, unknown,
  message_type_to_string, string_to_message_type, SparkplugTopic, getlines, state_prefix,
  namespace_prefix, parse_standard, parse_parts, parse, device_suffix, is_state, to_string,
}
use ipb.Sparkplug.Topic.Lines.{IsPart, is_part-IsPart, getlines-slash, getlines-last}

string_to_message_type-message_type_to_string :
    (kind : MessageType) → string_to_message_type (message_type_to_string kind) ≡ kind
unfolding string_to_message_type
string_to_message_type-message_type_to_string nbirth = refl
string_to_message_type-message_type_to_string ndeath = refl
string_to_message_type-message_type_to_string ndata = refl
string_to_message_type-message_type_to_string ncmd = refl
string_to_message_type-message_type_to_string dbirth = refl
string_to_message_type-message_type_to_string ddeath = refl
string_to_message_type-message_type_to_string ddata = refl
string_to_message_type-message_type_to_string dcmd = refl
string_to_message_type-message_type_to_string state = refl
string_to_message_type-message_type_to_string unknown = refl

message_type_to_string-IsPart : (kind : MessageType) → IsPart (message_type_to_string kind)
message_type_to_string-IsPart nbirth = is_part-IsPart (message_type_to_string nbirth) refl
message_type_to_string-IsPart ndeath = is_part-IsPart (message_type_to_string ndeath) refl
message_type_to_string-IsPart ndata = is_part-IsPart (message_type_to_string ndata) refl
message_type_to_string-IsPart ncmd = is_part-IsPart (message_type_to_string ncmd) refl
message_type_to_string-IsPart dbirth = is_part-IsPart (message_type_to_string dbirth) refl
message_type_to_string-IsPart ddeath = is_part-IsPart (message_type_to_string ddeath) refl
message_type_to_string-IsPart ddata = is_part-IsPart (message_type_to_string ddata) refl
message_type_to_string-IsPart dcmd = is_part-IsPart (message_type_to_string dcmd) refl
message_type_to_string-IsPart state = is_part-IsPart (message_type_to_string state) refl
message_type_to_string-IsPart unknown = is_part-IsPart (message_type_to_string unknown) refl

-- The node and the device.
abbrev ending : List ℕ → List ℕ → List (List ℕ)
ending node device = if is_empty device then node ∷ [] else node ∷ device ∷ []

getlines-ending :
    (node device : List ℕ)
    → IsPart node
    → 0 < length node
    → IsPart device
    → getlines (node ++ device_suffix device) ≡ ending node device
getlines-ending node [] hn ln hd = ap getlines (append-nil node) ∙ getlines-last node hn ln
getlines-ending node (c ∷ device) hn ln hd =
    getlines-slash node (c ∷ device) hn
    ∙ ap (◌∷◌ node) (getlines-last (c ∷ device) hd (omega arith))

parse_standard-ending :
    (group node device : List ℕ) (kind : MessageType)
    → parse_standard (namespace_prefix ∷ group ∷ message_type_to_string kind ∷ ending node device)
      ≡ some (record {
        group_id = group;
        message_type = kind;
        edge_node_id = node;
        device_id = device;
      })
unfolding parse_standard
parse_standard-ending group node [] kind =
    ap
      (λ k.
        some (record { group_id = group; message_type = k; edge_node_id = node; device_id = [] }))
      (string_to_message_type-message_type_to_string kind)
parse_standard-ending group node (c ∷ device) kind =
    ap
      (λ k. some (record {
        group_id = group;
        message_type = k;
        edge_node_id = node;
        device_id = c ∷ device;
      }))
      (string_to_message_type-message_type_to_string kind)

parse-standard :
    (group node device : List ℕ) (kind : MessageType)
    → IsPart group
    → IsPart node
    → 0 < length node
    → IsPart device
    → parse (
        namespace_prefix
        ++ (slash
            ∷ (group
                ++ (slash
                    ∷ (message_type_to_string kind ++ (slash ∷ (node ++ device_suffix device)))))))
      ≡ some (record {
        group_id = group;
        message_type = kind;
        edge_node_id = node;
        device_id = device;
      })
unfolding parse parse_parts
parse-standard group node device kind hg hn ln hd =
    let text = message_type_to_string kind in
    let last = node ++ device_suffix device in
    let parts : getlines
          (namespace_prefix ++ (slash ∷ (group ++ (slash ∷ (text ++ (slash ∷ last))))))
        ≡ namespace_prefix ∷ group ∷ text ∷ ending node device =
      getlines-slash namespace_prefix (group ++ (slash ∷ (text ++ (slash ∷ last))))
        (is_part-IsPart namespace_prefix refl)
      ∙ ap (◌∷◌ namespace_prefix) (
          getlines-slash group (text ++ (slash ∷ last)) hg
          ∙ ap (◌∷◌ group) (
              getlines-slash text last (message_type_to_string-IsPart kind)
              ∙ ap (◌∷◌ text) (getlines-ending node device hn ln hd))) in
    ap parse_parts parts ∙ parse_standard-ending group node device kind

parse-state :
    (node : List ℕ)
    → IsPart node
    → 0 < length node
    → parse (state_prefix ++ (slash ∷ node))
      ≡ some (record { group_id = []; message_type = state; edge_node_id = node; device_id = [] })
unfolding parse parse_parts
parse-state node hn ln = ap parse_parts (
    getlines-slash state_prefix node (is_part-IsPart state_prefix refl)
    ∙ ap (◌∷◌ state_prefix) (getlines-last node hn ln))

-- The topic without what a STATE topic has no room for.
abbrev pub carried : SparkplugTopic → SparkplugTopic
carried t =
    if is_state t.message_type
    then record {
      group_id = [];
      message_type = state;
      edge_node_id = t.edge_node_id;
      device_id = [];
    }
    else t

-- A topic whose parts hold no separator and whose node is not empty is parsed from its text as it was, a
-- STATE topic without its group and its device.
pub parse-to_string :
    (t : SparkplugTopic)
    → IsPart t.group_id
    → IsPart t.edge_node_id
    → 0 < length t.edge_node_id
    → IsPart t.device_id
    → parse (to_string t) ≡ some (carried t)
unfolding to_string
parse-to_string t hg hn ln hd = elim (Bool-cases (is_state t.message_type)) [
  | inl e ↦ rw (e) (parse-state t.edge_node_id hn ln)
  | inr e ↦ rw (e) (parse-standard t.group_id t.edge_node_id t.device_id t.message_type hg hn ln hd)
]
