-- ===== src/Account/Timezones.antt =====
-- POSIX rules of time zones: internal/account/timezone_posix.go. The map is the tables of the child
-- modules, one after the other.
mod Africa
mod AmericaFirst
mod AmericaSecond
mod AntarcticaToEtc
mod EuropeToUtc
use Prim.Native.Char.{code}
use fishhub_server.Prelude.{
  ℕ, zero, suc, String, ◌==◌, ◌≡◌, refl, Bool, true, false, ◌&&◌, ◌||◌, Option, none, some, List,
  [], ◌∷◌, ◌++◌, leb, if◌then◌else◌, arith, any,
}
use Africa.{africa}
use AmericaFirst.{america_first}
use AmericaSecond.{america_second}
use AntarcticaToEtc.{antarctica_to_etc}
use EuropeToUtc.{europe_to_utc}

-- The rule of the first entry for a name, and a fallback.
unfoldable pub rule_or : String → String → List (String × String) → String
rule_or fallback iana [] = fallback
rule_or fallback iana ((name, rule) ∷ entries) =
    if name == iana then rule else rule_or fallback iana entries

-- posixTZ
unfoldable pub posix_tz : String → String
unfolding rule_or
posix_tz iana =
    rule_or
      (rule_or
        (rule_or (rule_or (rule_or "UTC0" iana europe_to_utc) iana antarctica_to_etc) iana
          america_second)
        iana america_first)
      iana africa

abbrev codes : String → List ℕ
codes String.[] = []
codes (String.◌∷◌ c s) = code c ∷ codes s

abbrev is_digit : ℕ → Bool
is_digit c = leb b'0' c && leb c b'9'

abbrev is_letter : ℕ → Bool
is_letter c = (leb b'A' c && leb c b'Z') || (leb b'a' c && leb c b'z')

-- An offset: a digit, with a sign before it or without one.
starts_with_offset : List ℕ → Bool
starts_with_offset [] = false
starts_with_offset (c ∷ []) = is_digit c
starts_with_offset (c ∷ d ∷ cs) =
    is_digit c || ((leb b'+' c && leb c b'+' || leb b'-' c && leb c b'-') && is_digit d)

-- After a name in letters: so many of them are still to come at least.
after_letters : ℕ → List ℕ → Bool
after_letters n [] = false
after_letters zero (c ∷ cs) =
    let more = after_letters zero cs in if is_letter c then more else starts_with_offset (c ∷ cs)
after_letters (suc n) (c ∷ cs) =
    let more = after_letters n cs in if is_letter c then more else false

-- After a name in angle brackets.
after_bracket : List ℕ → Bool
after_bracket [] = false
after_bracket (c ∷ cs) =
    let more = after_bracket cs in if leb b'>' c && leb c b'>' then starts_with_offset cs else more

rule_codes : List ℕ → Bool
rule_codes [] = false
rule_codes (c ∷ cs) =
    if leb b'<' c && leb c b'<' then after_bracket cs else after_letters 3 (c ∷ cs)

-- The start of a POSIX TZ rule: a name of three letters or more, or one in angle brackets, and an
-- offset behind it.
unfoldable pub is_rule : String → Bool
unfolding rule_codes after_bracket after_letters starts_with_offset
is_rule s = rule_codes (codes s)

abbrev RulesHold : List (String × String) → Type 0
RulesHold entries =
    any (λ (e : String × String). if is_rule e.1 then false else true) entries ≡ false

africa_rules : RulesHold africa
unfolding any is_rule africa
africa_rules = refl

america_first_rules : RulesHold america_first
unfolding any is_rule america_first
america_first_rules = refl

america_second_rules : RulesHold america_second
unfolding any is_rule america_second
america_second_rules = refl

antarctica_to_etc_rules : RulesHold antarctica_to_etc
unfolding any is_rule antarctica_to_etc
antarctica_to_etc_rules = refl

europe_to_utc_rules : RulesHold europe_to_utc
unfolding any is_rule europe_to_utc
europe_to_utc_rules = refl

rule_or-is_rule :
    (fallback iana : String) (entries : List (String × String))
    → is_rule fallback ≡ true
    → RulesHold entries
    → is_rule (rule_or fallback iana entries) ≡ true
unfolding rule_or any
rule_or-is_rule fallback iana [] f h = f
rule_or-is_rule fallback iana ((name, rule) ∷ entries) f h =
    ground (arith, rule_or-is_rule fallback iana entries f)

utc : is_rule "UTC0" ≡ true
unfolding is_rule
utc = refl

-- Whatever name a user has chosen, the device is sent a rule that starts as POSIX wants it, never
-- an empty text.
pub posix_tz-is_rule : (iana : String) → is_rule (posix_tz iana) ≡ true
unfolding posix_tz
posix_tz-is_rule iana =
    rule_or-is_rule _ iana africa
      (rule_or-is_rule _ iana america_first
        (rule_or-is_rule _ iana america_second
          (rule_or-is_rule _ iana antarctica_to_etc
            (rule_or-is_rule "UTC0" iana europe_to_utc utc europe_to_utc_rules)
            antarctica_to_etc_rules)
          america_second_rules)
        america_first_rules)
      africa_rules
