-- ===== src/Base/Text.antt =====
-- The text functions of Rust's standard library that the operator uses: `format!` on parts that are
-- already rendered, `join`, `trim`, `to_string` of integers.
use Prim.Native.Char.{Char, code}
use text.Mathlib.Text.{starts_with}
use text.Mathlib.TextLemmas.{cons-append, append_assoc}
use Prim.Native.String.{[], ◌∷◌, ◌++◌}
use streamline_operator.Base.{
  ℕ, zero, suc, ◌-◌, ◌/◌, ◌%◌, String, List, Bool, true, false, ◌||◌, ◌&&◌, ltb, leb, ◌==◌,
  if◌then◌else◌, Bool-cases, str_eq, str_eq_sound, inl, inr, eq_iff, ◌≡◌, refl,
}
use streamline_operator.Base.Int.{ℤ, pos, negsuc}

-- `format!("a{b}c")` is `format ("a" ∷ b ∷ "c" ∷ [])`.
unfoldable pub format : List String → String
format List.[] = ""
format (List.◌∷◌ s ss) = s ++ format ss

-- `parts.join(sep)`
unfoldable pub join : String → List String → String
join sep List.[] = ""
join sep (List.◌∷◌ s List.[]) = s
join sep (List.◌∷◌ s (List.◌∷◌ t ts)) = s ++ (sep ++ join sep (List.◌∷◌ t ts))

digit : ℕ → String
digit n =
    if n == 0
    then "0"
    else if n == 1
    then "1"
    else if n == 2
    then "2"
    else if n == 3
    then "3"
    else if n == 4
    then "4"
    else if n == 5
    then "5"
    else if n == 6
    then "6"
    else if n == 7
    then "7"
    else if n == 8
    then "8"
    else "9"

-- The fuel `n` is more than the number of digits of `n`.
digits : ℕ → ℕ → String
unfolding digit
digits zero n = digit n
digits (suc fuel) n =
    let rest = digits fuel (n / 10) in if ltb n 10 then digit n else rest ++ digit (n % 10)

unfoldable pub show_ℕ : ℕ → String
unfolding digits
show_ℕ n = digits n n

unfoldable pub show_ℤ : ℤ → String
unfolding show_ℕ
show_ℤ (pos n) = show_ℕ n
show_ℤ (negsuc n) = "-" ++ show_ℕ (suc n)

abbrev pub show_bool : Bool → String
show_bool true = "true"
show_bool false = "false"

-- `char::is_whitespace`: the code points of the Unicode property White_Space.
is_whitespace : ℕ → Bool
is_whitespace c =
    (leb 9 c && leb c 13)
    || (c == 0x20 || c == 0x85 || c == 0xA0 || c == 0x1680)
    || (leb 0x2000 c && leb c 0x200A)
    || (c == 0x2028 || c == 0x2029 || c == 0x202F || c == 0x205F || c == 0x3000)

unfoldable pub trim_start : String → String
unfolding is_whitespace
trim_start [] = ""
trim_start (c ∷ s) = let rest = trim_start s in if is_whitespace (code c) then rest else c ∷ s

is_nil : String → Bool
is_nil [] = true
is_nil (c ∷ s) = false

unfoldable pub trim_end : String → String
unfolding is_whitespace is_nil
trim_end [] = ""
trim_end (c ∷ s) =
    let rest = trim_end s in if is_whitespace (code c) && is_nil rest then "" else c ∷ rest

-- `str::trim`
unfoldable pub trim : String → String
unfolding trim_start trim_end
trim s = trim_end (trim_start s)

-- `str::is_empty`
unfoldable pub is_blank : String → Bool
unfolding trim is_nil
is_blank s = is_nil (trim s)

unfoldable pub is_empty_text : String → Bool
unfolding is_nil
is_empty_text s = is_nil s

pub String-discrete : Discrete String
String-discrete s t = elim (Bool-cases (str_eq s t)) [
  | inl e ↦ yes (str_eq_sound s t e)
  | inr e ↦ no (λ p. cc ((eq_iff s t).1 p))
]

nth_char : ℕ → Char → String → Char
nth_char n c [] = c
nth_char zero c (d ∷ s) = d
nth_char (suc n) c (d ∷ s) = nth_char n c s

-- `str::to_lowercase` on a text of ASCII characters.
unfoldable pub to_lowercase : String → String
unfolding nth_char
to_lowercase [] = ""
to_lowercase (c ∷ s) =
    let rest = to_lowercase s in
    if leb 65 (code c) && leb (code c) 90
    then nth_char (code c - 65) c "abcdefghijklmnopqrstuvwxyz" ∷ rest
    else c ∷ rest

ends_with_slash : String → Bool
unfolding is_nil
ends_with_slash [] = false
ends_with_slash (c ∷ s) = let rest = ends_with_slash s in if is_nil s then code c == 47 else rest

-- `Path::join` with a relative name, as Unix writes paths.
unfoldable pub join_path : String → String → String
unfolding is_nil ends_with_slash
join_path dir file =
    if is_nil dir then file else if ends_with_slash dir then dir ++ file else dir ++ ("/" ++ file)

pub is_empty_text-append : (s t : String) → is_empty_text s ≡ false → is_empty_text (s ++ t) ≡ false
unfolding is_empty_text is_nil
is_empty_text-append [] t h = absurd (cc h)
is_empty_text-append (c ∷ s) t h = rw (cons-append c s t) refl

-- A separated list whose first part is a concatenation.
pub join-append :
    (sep s t : String) (us : List String)
    → join sep (List.◌∷◌ (s ++ t) us) ≡ s ++ join sep (List.◌∷◌ t us)
unfolding join
join-append sep s t List.[] = refl
join-append sep s t (List.◌∷◌ u us) = append_assoc s t (sep ++ join sep (List.◌∷◌ u us))

-- `str::contains`
unfoldable pub contains : String → String → Bool
unfolding is_nil
contains [] q = is_nil q
contains (c ∷ s) q = let rest = contains s q in starts_with (c ∷ s) q || rest
