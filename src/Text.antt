-- ===== src/Text.antt =====
-- strings.Split on a slash, and the MQTT topics that it takes apart: deviceIDFromTopic of
-- internal/trigger_events/mqtt_handler.go and of internal/firmware/mqtt_handler.go, which differ in
-- the last part that they ask for. strings.Contains.
pub mod Order
use Prim.Native.Char.{code}
use Prim.Native.Nat.{compare as compare_ℕ, Ordering}
use fishhub_server.Prelude.{
  ℕ, String, ◌==◌, not, ◌&&◌, ◌||◌, starts_with, Bool, true, false, Option, none, some, List, [],
  ◌∷◌, if◌then◌else◌, leb, eqb,
}

abbrev pub is_slash : ℕ → Bool
is_slash c = elim (compare_ℕ c b'/') [ Ordering.eq ↦ true | _ ↦ false ]

-- A character that is put before the first part.
abbrev pub extend : (String → String) → List String → List String
extend f [] = f "" ∷ []
extend f (part ∷ parts) = f part ∷ parts

-- strings.Split(topic, "/")
unfoldable pub split : String → List String
split String.[] = "" ∷ []
split (String.◌∷◌ c s) =
    let parts = split s in
    if is_slash (code c) then "" ∷ parts else extend (λ part. String.◌∷◌ c part) parts

abbrev pub is_comma : ℕ → Bool
is_comma c = elim (compare_ℕ c b',') [ Ordering.eq ↦ true | _ ↦ false ]

-- strings.Split(s, ",")
unfoldable pub split_commas : String → List String
split_commas String.[] = "" ∷ []
split_commas (String.◌∷◌ c s) =
    let parts = split_commas s in
    if is_comma (code c) then "" ∷ parts else extend (λ part. String.◌∷◌ c part) parts

device_id_of_parts : String → List String → Option String
device_id_of_parts kind (root ∷ device_id ∷ last ∷ []) =
    if root == "fishhub" && last == kind && not (device_id == "") then some device_id else none
device_id_of_parts kind _ = none

-- deviceIDFromTopic: the device of the topic fishhub/{device_id}/{kind}.
unfoldable pub device_id_from_topic : String → String → Option String
unfolding split device_id_of_parts
device_id_from_topic kind topic = device_id_of_parts kind (split topic)

-- The part before the first character that passes a test, and the part behind it.
unfoldable pub cut_at : (ℕ → Bool) → String → Option (String × String)
cut_at p String.[] = none
cut_at p (String.◌∷◌ c s) =
    let later = cut_at p s in
    if p (code c)
    then some ("", s)
    else elim later [ none ↦ none | some parts ↦ some (String.◌∷◌ c parts.0, parts.1) ]

-- unicode.IsSpace
abbrev pub is_space : ℕ → Bool
is_space c =
    leb 9 c && leb c 13
    || eqb c 32
    || eqb c 0x85
    || eqb c 0xa0
    || eqb c 0x1680
    || leb 0x2000 c && leb c 0x200a
    || eqb c 0x2028
    || eqb c 0x2029
    || eqb c 0x202f
    || eqb c 0x205f
    || eqb c 0x3000

unfoldable pub trim_left : String → String
trim_left String.[] = ""
trim_left (String.◌∷◌ c s) =
    let rest = trim_left s in if is_space (code c) then rest else String.◌∷◌ c s

unfoldable pub trim_right : String → String
trim_right String.[] = ""
trim_right (String.◌∷◌ c s) =
    let rest = trim_right s in if rest == "" && is_space (code c) then "" else String.◌∷◌ c rest

-- strings.TrimSpace
unfoldable pub trim_space : String → String
unfolding trim_left trim_right
trim_space s = trim_right (trim_left s)

-- strings.Contains(s, part)
unfoldable pub contains : String → String → Bool
contains String.[] part = starts_with "" part
contains (String.◌∷◌ c s) part = starts_with (String.◌∷◌ c s) part || contains s part
