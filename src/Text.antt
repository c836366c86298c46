-- ===== src/Text.antt =====
-- Texts as their bytes: the literals and the integer formats that src/state.rs and src/session.rs
-- print, and the test for UTF-8 behind `OsStr::to_str`.
use Prim.Native.Char.{code}
use Prim.Native.String.{String}
use gatefs.Base.{
  Bool, List, Option, [], false, if◌then◌else◌, leb, ltb, none, refl, some, suc, true, zero, ℕ, ◌%◌,
  ◌&&◌, ◌++◌, ◌+◌, ◌-◌, ◌/◌, ◌∷◌, ◌≡◌,
}

abbrev pub Bytes : Type 0
Bytes = List ℕ

-- The bytes of an ASCII literal.
abbrev pub bytes : String → Bytes
bytes String.[] = []
bytes (String.◌∷◌ c s) = code c ∷ bytes s

-- A digit below 16, in lower case.
digit : ℕ → ℕ
digit d = if ltb d 10 then b'0' + d else b'a' + d - 10

-- Digits before `out`, the last one first; more rounds than digits change nothing.
digits : ℕ → ℕ → ℕ → Bytes → Bytes
unfolding digit
digits zero base n out = out
digits (suc fuel) base n out =
    let rest = digits fuel base (n / base) (digit (n % base) ∷ out) in
    if ltb n base then digit n ∷ out else rest

-- `{n}`, `{n:o}` and `{n:x}`.
unfoldable pub decimal : ℕ → Bytes
unfolding digits
decimal n = digits (suc n) 10 n []

unfoldable pub octal : ℕ → Bytes
unfolding digits
octal n = digits (suc n) 8 n []

unfoldable pub hex : ℕ → Bytes
unfolding digits
hex n = digits (suc n) 16 n []

-- `{n:04o}`.
unfoldable pub octal4 : ℕ → Bytes
unfolding octal
octal4 n =
    if ltb n 8
    then bytes "000" ++ octal n
    else if ltb n 64
    then bytes "00" ++ octal n
    else if ltb n 512
    then bytes "0" ++ octal n
    else octal n

-- The ranges of the bytes that must follow a first byte; none for no first byte of a character.
lead : ℕ → Option (List (ℕ × ℕ))
lead b =
    if ltb b 0x80
    then some []
    else if ltb b 0xc2
    then none
    else if ltb b 0xe0
    then some ((0x80, 0xbf) ∷ [])
    else if ltb b 0xe1
    then some ((0xa0, 0xbf) ∷ (0x80, 0xbf) ∷ [])
    else if ltb b 0xed
    then some ((0x80, 0xbf) ∷ (0x80, 0xbf) ∷ [])
    else if ltb b 0xee
    then some ((0x80, 0x9f) ∷ (0x80, 0xbf) ∷ [])
    else if ltb b 0xf0
    then some ((0x80, 0xbf) ∷ (0x80, 0xbf) ∷ [])
    else if ltb b 0xf1
    then some ((0x90, 0xbf) ∷ (0x80, 0xbf) ∷ (0x80, 0xbf) ∷ [])
    else if ltb b 0xf4
    then some ((0x80, 0xbf) ∷ (0x80, 0xbf) ∷ (0x80, 0xbf) ∷ [])
    else if ltb b 0xf5
    then some ((0x80, 0x8f) ∷ (0x80, 0xbf) ∷ (0x80, 0xbf) ∷ [])
    else none

-- `str::from_utf8` succeeds, with the ranges of the bytes still due.
valid_after : List (ℕ × ℕ) → Bytes → Bool
unfolding lead
valid_after [] [] = true
valid_after (r ∷ rs) [] = false
valid_after [] (b ∷ s) = elim (lead b) [ none ↦ false | some rs ↦ valid_after rs s ]
valid_after ((lo, hi) ∷ rs) (b ∷ s) = leb lo b && leb b hi && valid_after rs s

unfoldable pub is_utf8 : Bytes → Bool
unfolding valid_after
is_utf8 = valid_after []

-- `OsStr::to_string_lossy`: U+FFFD stands for each longest start of a character that breaks off. What
-- is read of a character waits in `seen`.
abbrev replacement : Bytes
replacement = 0xef ∷ 0xbf ∷ 0xbd ∷ []

start : ℕ → Bytes × (Bytes × List (ℕ × ℕ))
unfolding lead
start b = elim (lead b) [
  | none ↦ (replacement, ([], []))
  | some [] ↦ (b ∷ [], ([], []))
  | some (r ∷ rs) ↦ ([], (b ∷ [], r ∷ rs))
]

continue_with : Bytes → List (ℕ × ℕ) → ℕ → Bytes × (Bytes × List (ℕ × ℕ))
continue_with seen [] b = (seen ++ b ∷ [], ([], []))
continue_with seen (r ∷ rs) b = ([], (seen ++ b ∷ [], r ∷ rs))

after_byte : Bytes → List (ℕ × ℕ) → ℕ → Bytes × (Bytes × List (ℕ × ℕ))
unfolding start continue_with
after_byte seen [] b = start b
after_byte seen ((lo, hi) ∷ rs) b =
    if leb lo b && leb b hi
    then continue_with seen rs b
    else (replacement ++ (start b).0, (start b).1)

replaced : Bytes → List (ℕ × ℕ) → Bytes → Bytes
unfolding after_byte
replaced seen [] [] = []
replaced seen (r ∷ rs) [] = replacement
replaced seen due (b ∷ s) =
    let (out, (seen2, due2)) = after_byte seen due b in out ++ replaced seen2 due2 s

unfoldable pub to_string_lossy : Bytes → Bytes
unfolding replaced is_utf8
to_string_lossy s = if is_utf8 s then s else replaced [] [] s

-- Two bytes of a character of three, then a letter, then a byte that starts none.
lossy : to_string_lossy (0xe2 ∷ 0x82 ∷ b'a' ∷ 0xff ∷ []) ≡ replacement ++ b'a' ∷ replacement
unfolding to_string_lossy
lossy = refl

formats : decimal 1800 ++ hex 0x20 ++ octal4 0o44 ≡ bytes "1800200044"
unfolding decimal hex octal4
formats = refl

not_utf8 : is_utf8 (b'a' ∷ 0xff ∷ []) ≡ false
unfolding is_utf8
not_utf8 = refl
