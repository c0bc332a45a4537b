-- ===== src/Configuration/Keys.antt =====
-- parseKey and getAssignedFields of configuration/decode_clusters.go. The regular expression
-- `\[(\d+)\]\.(.+)` is read off the text character by character.
pub mod RoundTrip
use Prim.Native.Char.{code}
use fabric8_cluster.Common.{
  ℕ, ◌+◌, ◌*◌, String, ◌<>◌, Bool, not, ◌&&◌, Option, none, some, List, [], ◌∷◌, if◌then◌else◌,
  ◌==◌, nat_eq, string_eq, leb,
}
use fabric8_cluster.Errors.{text, wrapped, Result, ok, err}
use Prim.Native.Nat.{◌-◌}

-- `.+`: what stands before the end of the line.
unfoldable pub line : String → String
line String.[] = ""
line (String.◌∷◌ c s) = let rest = line s in if code c == 0xa then "" else String.◌∷◌ c rest

-- A match: the digits, the number that they stand for, and the field.
abbrev pub Match : Type 0
Match = String × ℕ × String

unfoldable pub field_after : String → ℕ → String → Option Match
field_after seen idx s = if line s == "" then none else some (seen, idx, line s)

-- `\.(.+)`
unfoldable pub dot : String → ℕ → String → Option Match
dot seen idx String.[] = none
dot seen idx (String.◌∷◌ c s) = if code c == 0x2e then field_after seen idx s else none

-- `\d`
abbrev pub is_digit : ℕ → Bool
is_digit c = leb 0x30 c && leb c 0x39

-- `(\d+)\]`, after the digits `seen`.
unfoldable pub digits : String → ℕ → String → Option Match
digits seen idx String.[] = none
digits seen idx (String.◌∷◌ c s) =
    let rest = digits (seen <> String.◌∷◌ c "") (10 * idx + (code c - 0x30)) s in
    if is_digit (code c)
    then rest
    else if not (seen == "") && code c == 0x5d
    then dot seen idx s
    else none

-- A match at the first place where there is one.
unfoldable pub find : String → Option Match
unfolding digits dot field_after
find String.[] = none
find (String.◌∷◌ c s) =
    let rest = find s in if code c == 0x5b then or_else (digits "" 0 s) rest else rest
  where
    or_else : Option Match → Option Match → Option Match
    or_else none o = o
    or_else (some m) o = some m

-- The largest `int` of 64 bits.
abbrev pub max_int : ℕ
max_int = 9223372036854775807

unfoldable pub in_range : Option Match → Result (Option (ℕ × String))
in_range none = ok none
in_range (some (seen, idx, field)) =
    if leb idx max_int
    then ok (some (idx, field))
    else err (
        text ("unable to parse field assigned during decoding: '" <> seen <> "' is not an integer"))

-- `parseKey`; `none` stands for the index -1, which says that the key is ignored.
unfoldable pub parse_key : String → Result (Option (ℕ × String))
unfolding in_range
parse_key k = in_range (find k)

-- `getAssignedFields`: the keys of the map.
unfoldable pub get_assigned_fields : List String → Result (List (ℕ × String))
get_assigned_fields [] = ok []
get_assigned_fields (k ∷ ks) = add (parse_key k) (get_assigned_fields ks)
  where
    add : Result (Option (ℕ × String)) → Result (List (ℕ × String)) → Result (List (ℕ × String))
    add (err e) rest = err (wrapped e "unable to decode clusters from config")
    add (ok none) rest = rest
    add (ok (some a)) (ok rest) = ok (a ∷ rest)
    add (ok (some a)) (err e) = err e
