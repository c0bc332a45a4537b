-- ===== src/Configuration/Keys/RoundTrip.antt =====
-- Keys as mapstructure writes them, `[<index>].<field>`, are parsed back.
use Prim.Native.Char.{Char, code}
use Prim.Native.Nat.{◌-◌}
use text.Mathlib.TextLemmas.{append-nil, append_assoc, nil-append, cons-append}
use fabric8_cluster.Common.{
  ℕ, ◌+◌, ◌*◌, ◌≤◌, ◌<◌, String, ◌<>◌, true, false, some, ◌≡◌, ◌≢◌, ◌∙◌, sym, ap, refl, arith, leb,
  ◌==◌, string_eq, nat_eq,
}
use fabric8_cluster.Errors.{ok, err, text as message}
use fabric8_cluster.Configuration.Keys.{
  line, is_digit, digits, dot, field_after, find, max_int, in_range, parse_key,
}

abbrev pub IsDigits : String → Type 0
IsDigits String.[] = Unit
IsDigits (String.◌∷◌ c s) = (is_digit (code c) ≡ true) × IsDigits s

-- The number that the digits stand for, after digits that stand for `n`.
unfoldable pub value : ℕ → String → ℕ
value n String.[] = n
value n (String.◌∷◌ c s) = value (10 * n + (code c - 0x30)) s

-- The key of a field of the cluster at the index that the digits stand for.
abbrev pub key : (index field : String) → String
key index field = String.◌∷◌ "[" (index <> String.◌∷◌ "]" (String.◌∷◌ "." field))

module _ (field : String) (given : field ≢ "") (one_line : line field ≡ field) where
  field_found : (seen : String) (n : ℕ) → field_after seen n field ≡ some (seen, n, field)
  unfolding field_after
  field_found seen n = ground (arith, given, one_line)

  closing :
      (seen : String) (n : ℕ)
      → seen ≢ ""
      → digits seen n (String.◌∷◌ "]" (String.◌∷◌ "." field)) ≡ some (seen, n, field)
  unfolding digits dot nat_eq
  closing seen n some_digit =
      let fresh : (seen == "") ≡ false = ground (arith, some_digit) in
      rw (fresh, digits) (field_found seen n)

  reading :
      (c : Char) (t seen : String) (n : ℕ)
      → is_digit (code c) ≡ true
      → digits seen n (String.◌∷◌ c t)
        ≡ digits (seen <> String.◌∷◌ c "") (10 * n + (code c - 0x30)) t
  unfolding digits
  reading c t seen n digit = rw (digit, digits) refl

  digits-key :
      (index seen : String) (n : ℕ)
      → IsDigits index
      → seen <> index ≢ ""
      → digits seen n (index <> String.◌∷◌ "]" (String.◌∷◌ "." field))
        ≡ some (seen <> index, value n index, field)
  unfolding value
  digits-key String.[] seen n all some_digit =
      rw (nil-append (String.◌∷◌ "]" (String.◌∷◌ "." field)), append-nil seen)
        (closing seen n (rw (append-nil seen) at some_digit))
  digits-key (String.◌∷◌ c s) seen n all some_digit =
      let grown : (seen <> String.◌∷◌ c "") <> s ≡ seen <> String.◌∷◌ c s =
        append_assoc seen (String.◌∷◌ c "") s
        ∙ ap (λ t. seen <> t) (cons-append c "" s ∙ ap (String.◌∷◌ c) (nil-append s)) in
      ap (digits seen n) (cons-append c s (String.◌∷◌ "]" (String.◌∷◌ "." field)))
      ∙ reading c _ seen n all.0
      ∙ rw grown at (
          digits-key s (seen <> String.◌∷◌ c "") (10 * n + (code c - 0x30)) all.1
            (rw (sym grown) at some_digit))

  found :
      (index : String)
      → IsDigits index
      → index ≢ ""
      → find (key index field) ≡ some (index, value 0 index, field)
  unfolding find nat_eq
  found index all some_digit =
      let read = digits-key index "" 0 all (rw (sym (nil-append index)) at some_digit) in
      rw (read, nil-append index, find) refl

  -- parse_key gives back the index and the field of the key that is made of them, for every index
  -- in decimal digits (leading zeros included) and every field of one line that is not empty, if
  -- the index is at most the largest int; if it is larger, parse_key returns an error that names
  -- the digits.
  pub parse_key-key :
      (index : String)
      → IsDigits index
      → index ≢ ""
      → (value 0 index ≤ max_int → parse_key (key index field) ≡ ok (some (value 0 index, field)))
        × (max_int < value 0 index
            → parse_key (key index field)
              ≡ err (
                  message (
                    "unable to parse field assigned during decoding: '" <> index
                    <> "' is not an integer")))
  unfolding parse_key in_range
  parse_key-key index all some_digit =
      let match = found index all some_digit in
      (
        (λ small.
            let fits : leb (value 0 index) max_int ≡ true = ground (arith, small) in
            rw (match, fits) refl),
        λ large.
            let over : leb (value 0 index) max_int ≡ false = ground (arith, large) in
            rw (match, over) refl,
      )
