-- ===== src/Sparkplug/Topic.antt =====
-- scoops/sparkplug/src/sparkplug_topic.cpp: `SparkplugTopic` and `SubscriptionFilter`, with
-- `MessageType`, on texts as lists of bytes.
pub mod Lines
pub mod Parsing
use ipb.Base.{
  ℕ, Bool, true, false, not, List, [], ◌∷◌, ◌++◌, Option, none, some, if◌then◌else◌, ◌==◌,
}
use ipb.MessageBus.Topic.{same, is_empty, slash}

pub data MessageType : Type 0 where
  nbirth : MessageType
  ndeath : MessageType
  ndata : MessageType
  ncmd : MessageType
  dbirth : MessageType
  ddeath : MessageType
  ddata : MessageType
  dcmd : MessageType
  state : MessageType
  unknown : MessageType

-- `message_type_to_string`
abbrev pub message_type_to_string : MessageType → List ℕ
message_type_to_string nbirth = 78 ∷ 66 ∷ 73 ∷ 82 ∷ 84 ∷ 72 ∷ []
message_type_to_string ndeath = 78 ∷ 68 ∷ 69 ∷ 65 ∷ 84 ∷ 72 ∷ []
message_type_to_string ndata = 78 ∷ 68 ∷ 65 ∷ 84 ∷ 65 ∷ []
message_type_to_string ncmd = 78 ∷ 67 ∷ 77 ∷ 68 ∷ []
message_type_to_string dbirth = 68 ∷ 66 ∷ 73 ∷ 82 ∷ 84 ∷ 72 ∷ []
message_type_to_string ddeath = 68 ∷ 68 ∷ 69 ∷ 65 ∷ 84 ∷ 72 ∷ []
message_type_to_string ddata = 68 ∷ 68 ∷ 65 ∷ 84 ∷ 65 ∷ []
message_type_to_string dcmd = 68 ∷ 67 ∷ 77 ∷ 68 ∷ []
message_type_to_string state = 83 ∷ 84 ∷ 65 ∷ 84 ∷ 69 ∷ []
message_type_to_string unknown = 85 ∷ 78 ∷ 75 ∷ 78 ∷ 79 ∷ 87 ∷ 78 ∷ []

-- `string_to_message_type`
unfoldable pub string_to_message_type : List ℕ → MessageType
string_to_message_type text =
    if same text (message_type_to_string nbirth)
    then nbirth
    else if same text (message_type_to_string ndeath)
    then ndeath
    else if same text (message_type_to_string ndata)
    then ndata
    else if same text (message_type_to_string ncmd)
    then ncmd
    else if same text (message_type_to_string dbirth)
    then dbirth
    else if same text (message_type_to_string ddeath)
    then ddeath
    else if same text (message_type_to_string ddata)
    then ddata
    else if same text (message_type_to_string dcmd)
    then dcmd
    else if same text (message_type_to_string state)
    then state
    else unknown

pub record SparkplugTopic : Type 0 where
  pub group_id : List ℕ
  pub message_type : MessageType
  pub edge_node_id : List ℕ
  pub device_id : List ℕ

-- `std::getline(ss, part, '/')` until it fails: what stands behind the last separator is a part only
-- where it is not empty. The first list is the part so far.
unfoldable pub lines_from : List ℕ → List ℕ → List (List ℕ)
lines_from part [] = if is_empty part then [] else part ∷ []
lines_from part (c ∷ text) = elim (c == slash) [
  | true ↦ part ∷ lines_from [] text
  | false ↦ lines_from (part ++ (c ∷ [])) text
]

abbrev pub getlines : List ℕ → List (List ℕ)
getlines text = lines_from [] text

-- "STATE" and "spBv1.0"
abbrev pub state_prefix : List ℕ
state_prefix = 83 ∷ 84 ∷ 65 ∷ 84 ∷ 69 ∷ []

abbrev pub namespace_prefix : List ℕ
namespace_prefix = 115 ∷ 112 ∷ 66 ∷ 118 ∷ 49 ∷ 46 ∷ 48 ∷ []

abbrev device_part : List (List ℕ) → List ℕ
device_part [] = []
device_part (device ∷ parts) = device

-- The format of four parts or more.
unfoldable pub parse_standard : List (List ℕ) → Option SparkplugTopic
parse_standard (prefix ∷ group ∷ kind ∷ node ∷ parts) =
    if same prefix namespace_prefix
    then some (record {
      group_id = group;
      message_type = string_to_message_type kind;
      edge_node_id = node;
      device_id = device_part parts;
    })
    else none
parse_standard [] = none
parse_standard (p ∷ []) = none
parse_standard (p ∷ q ∷ []) = none
parse_standard (p ∷ q ∷ r ∷ []) = none

unfoldable pub parse_parts : List (List ℕ) → Option SparkplugTopic
parse_parts [] = none
parse_parts (p ∷ []) = none
parse_parts (prefix ∷ host ∷ parts) =
    if same prefix state_prefix
    then some (record { group_id = []; message_type = state; edge_node_id = host; device_id = [] })
    else parse_standard (prefix ∷ host ∷ parts)

-- `parse`
unfoldable pub parse : List ℕ → Option SparkplugTopic
parse topic = parse_parts (getlines topic)

-- The device, where there is one.
abbrev pub device_suffix : List ℕ → List ℕ
device_suffix device = if is_empty device then [] else slash ∷ device

abbrev pub is_state : MessageType → Bool
is_state state = true
is_state _ = false

-- `to_string`
unfoldable pub to_string : SparkplugTopic → List ℕ
to_string t =
    if is_state t.message_type
    then state_prefix ++ (slash ∷ t.edge_node_id)
    else namespace_prefix
      ++ (slash
          ∷ (t.group_id
              ++ (slash
                  ∷ (message_type_to_string t.message_type
                      ++ (slash ∷ (t.edge_node_id ++ device_suffix t.device_id))))))

-- `is_node_message` and the others, of a topic by its message type.
unfoldable pub is_node_message : MessageType → Bool
is_node_message nbirth = true
is_node_message ndeath = true
is_node_message ndata = true
is_node_message ncmd = true
is_node_message dbirth = false
is_node_message ddeath = false
is_node_message ddata = false
is_node_message dcmd = false
is_node_message state = false
is_node_message unknown = false

unfoldable pub is_device_message : MessageType → Bool
is_device_message nbirth = false
is_device_message ndeath = false
is_device_message ndata = false
is_device_message ncmd = false
is_device_message dbirth = true
is_device_message ddeath = true
is_device_message ddata = true
is_device_message dcmd = true
is_device_message state = false
is_device_message unknown = false

unfoldable pub is_birth : MessageType → Bool
is_birth nbirth = true
is_birth ndeath = false
is_birth ndata = false
is_birth ncmd = false
is_birth dbirth = true
is_birth ddeath = false
is_birth ddata = false
is_birth dcmd = false
is_birth state = false
is_birth unknown = false

unfoldable pub is_death : MessageType → Bool
is_death nbirth = false
is_death ndeath = true
is_death ndata = false
is_death ncmd = false
is_death dbirth = false
is_death ddeath = true
is_death ddata = false
is_death dcmd = false
is_death state = false
is_death unknown = false

unfoldable pub is_data : MessageType → Bool
is_data nbirth = false
is_data ndeath = false
is_data ndata = true
is_data ncmd = false
is_data dbirth = false
is_data ddeath = false
is_data ddata = true
is_data dcmd = false
is_data state = false
is_data unknown = false

unfoldable pub is_command : MessageType → Bool
is_command nbirth = false
is_command ndeath = false
is_command ndata = false
is_command ncmd = true
is_command dbirth = false
is_command ddeath = false
is_command ddata = false
is_command dcmd = true
is_command state = false
is_command unknown = false

pub record SubscriptionFilter : Type 0 where
  pub group_id_pattern : List ℕ
  pub edge_node_pattern : List ℕ
  pub device_pattern : List ℕ
  pub message_types : List MessageType

-- One topic of the loop over the message types; 43 is '+'.
unfoldable pub topic_of : SubscriptionFilter → MessageType → List ℕ
topic_of f type =
    let topic =
      namespace_prefix
      ++ (slash
          ∷ (f.group_id_pattern
              ++ (slash ∷ (message_type_to_string type ++ (slash ∷ f.edge_node_pattern))))) in
    if is_device_message type
    then topic ++ (slash ∷ (if is_empty f.device_pattern then 43 ∷ [] else f.device_pattern))
    else topic

abbrev pub topics_of : SubscriptionFilter → List MessageType → List (List ℕ)
topics_of f [] = []
topics_of f (type ∷ types) = topic_of f type ∷ topics_of f types

-- `to_mqtt_topics`; 35 is '#'.
unfoldable pub to_mqtt_topics : SubscriptionFilter → List (List ℕ)
to_mqtt_topics f =
    let base =
      namespace_prefix
      ++ (slash ∷ (f.group_id_pattern ++ (slash ∷ 43 ∷ slash ∷ f.edge_node_pattern))) in
    elim (f.message_types) [
      | [] ↦
          if is_empty f.device_pattern
          then base ∷ (base ++ (slash ∷ 35 ∷ [])) ∷ []
          else if same f.device_pattern (35 ∷ [])
          then base ∷ (base ++ (slash ∷ 35 ∷ [])) ∷ []
          else (base ++ (slash ∷ f.device_pattern)) ∷ []
      | type ∷ types ↦ topics_of f (type ∷ types)
    ]
