-- ===== src/Telemetry/Logs.antt =====
-- `publicLogs` of telemetry_devices.go: the lines of the system's log that the dashboard may show.
use mathlib.Core.List.{Mem, mem-cons_self, mem-cons_of_mem}
use yachtsense_link_emulator.Common.{
  All-map, All-drop, append-nil, sym, ap, ℕ, zero, suc, ◌++◌, length-take_of_le, ◌-◌, ◌≤◌, Bool,
  true, false, not, ◌||◌, List, [], ◌∷◌, ltb, if◌then◌else◌, length, take, drop, length-drop,
  length-take-le, All, ◌≡◌, refl, arith, Bool-cases, inl, inr, ◌⊎◌,
}
use yachtsense_link_emulator.Common.Bytes.{Bytes, codes, contains_text, split, to_lower}

abbrev pub service_name : Bytes
service_name = codes "yachtsense-link-emulator"

-- One of the emulator's own events
abbrev pub is_event : Bytes → Bool
is_event line =
    contains_text line (codes "INFO ready package=")
    || (contains_text line (codes "Axiom/MFD detected")
        || (contains_text line (codes "app/client detected")
            || (contains_text line (codes "INFO shutdown")
                || contains_text line (codes "INFO stopped"))))

abbrev pub has_secret : (Bytes → Bytes) → Bytes → Bool
has_secret lower line =
    contains_text (to_lower lower line) (codes "password")
    || contains_text (to_lower lower line) (codes "token=")

abbrev pub shortened : Bytes → Bytes
shortened line = if ltb 480 (length line) then take 480 line else line

unfoldable pub public_lines : (Bytes → Bytes) → List Bytes → List Bytes
unfolding contains_text to_lower
public_lines lower [] = []
public_lines lower (line ∷ lines) =
    let rest = public_lines lower lines in
    if not (contains_text line service_name) || not (is_event line)
    then rest
    else if has_secret lower line
    then rest
    else shortened line ∷ rest

abbrev pub last_30 : List Bytes → List Bytes
last_30 out = if ltb 30 (length out) then drop (length out - 30) out else out

-- `publicLogs`
unfoldable pub public_logs : (Bytes → Bytes) → Bytes → List Bytes
unfolding public_lines split
public_logs lower data_read = last_30 (public_lines lower (split b'\n' data_read))

-- A line that may be shown: the start of a line of the log, at most 480 bytes long, that names the
-- service and tells one of its events, and in lower case has neither `password` nor `token=`
pub record IsPublic (lower : Bytes → Bytes) (lines : List Bytes) (shown : Bytes) : Type 0 where
  pub line : Bytes
  pub stands : Mem line lines
  pub left_out : Bytes
  pub start : line ≡ shown ++ left_out
  pub cut : (left_out ≡ []) ⊎ (length shown ≡ 480)
  pub short : length shown ≤ 480
  pub names : contains_text line service_name ≡ true
  pub event :
      (contains_text line (codes "INFO ready package=") ≡ true)
      ⊎ (contains_text line (codes "Axiom/MFD detected") ≡ true)
      ⊎ (contains_text line (codes "app/client detected") ≡ true)
      ⊎ (contains_text line (codes "INFO shutdown") ≡ true)
      ⊎ (contains_text line (codes "INFO stopped") ≡ true)
  pub no_password : contains_text (to_lower lower line) (codes "password") ≡ false
  pub no_token : contains_text (to_lower lower line) (codes "token=") ≡ false

one_of_five :
    (a b c d e : Bool)
    → (a || (b || (c || (d || e)))) ≡ true
    → (a ≡ true) ⊎ (b ≡ true) ⊎ (c ≡ true) ⊎ (d ≡ true) ⊎ (e ≡ true)
one_of_five true b c d e h = inl refl
one_of_five false true c d e h = inr (inl refl)
one_of_five false false true d e h = inr (inr (inl refl))
one_of_five false false false true e h = inr (inr (inr (inl refl)))
one_of_five false false false false e h = inr (inr (inr (inr h)))

neither : (a b : Bool) → (a || b) ≡ false → (a ≡ false) × (b ≡ false)
neither false b h = (refl, h)
neither true b h = absurd (cc h)

append-take-drop : (n : ℕ) (s : Bytes) → s ≡ take n s ++ drop n s
append-take-drop zero s = refl
append-take-drop (suc n) [] = refl
append-take-drop (suc n) (c ∷ s) = ap (◌∷◌ c) (append-take-drop n s)

shortened_parts :
    (line : Bytes)
    → (rest : Bytes) × (line ≡ shortened line ++ rest)
      × ((rest ≡ []) ⊎ (length (shortened line) ≡ 480))
shortened_parts line = by_length (ltb 480 (length line)) refl
  where
    by_length :
        (long : Bool)
        → ltb 480 (length line) ≡ long
        → (rest : Bytes) × (line ≡ (if long then take 480 line else line) ++ rest)
          × ((rest ≡ []) ⊎ (length (if long then take 480 line else line) ≡ 480))
    by_length false h = ([], sym (append-nil line), inl refl)
    by_length true h = (
      drop 480 line,
      append-take-drop 480 line,
      inr (ground (arith, length-take_of_le 480 line (ground (arith, h)))),
    )

length-shortened-le : (line : Bytes) → length (shortened line) ≤ 480
length-shortened-le line = elim (Bool-cases (ltb 480 (length line))) [
  | inl long ↦ rw long (length-take-le 480 line)
  | inr short ↦ rw short (ground (arith, short))
]

IsPublic-more :
    (lower : Bytes → Bytes) (x : Bytes) (lines : List Bytes) (shown : Bytes)
    → IsPublic lower lines shown
    → IsPublic lower (x ∷ lines) shown
IsPublic-more lower x lines shown h = record {
  line = h.line;
  stands = mem-cons_of_mem x h.stands;
  left_out = h.left_out;
  start = h.start;
  cut = h.cut;
  short = h.short;
  names = h.names;
  event = h.event;
  no_password = h.no_password;
  no_token = h.no_token;
}

if-public :
    (P : Bytes → Type 0) (b : Bool) (x y : List Bytes)
    → (b ≡ true → All P x)
    → (b ≡ false → All P y)
    → All P (if b then x else y)
if-public P true x y h k = h refl
if-public P false x y h k = k refl

public_lines-IsPublic :
    (lower : Bytes → Bytes) (lines : List Bytes)
    → All (IsPublic lower lines) (public_lines lower lines)
unfolding public_lines
public_lines-IsPublic lower [] = tt
public_lines-IsPublic lower (line ∷ lines) =
    let rest =
      All-map _ _ (λ x h. IsPublic-more lower line lines x h) (public_lines lower lines)
        (public_lines-IsPublic lower lines) in
    if-public (IsPublic lower (line ∷ lines))
      (not (contains_text line service_name) || not (is_event line)) _ _ (λ other. rest)
      (λ own.
        if-public (IsPublic lower (line ∷ lines)) (has_secret lower line) _ _ (λ secret. rest)
          (λ plain.
            let (names, event) = both (contains_text line service_name) (is_event line) own in
            (
              record {
                line = line;
                stands = mem-cons_self;
                left_out = (shortened_parts line).0;
                start = (shortened_parts line).1;
                cut = (shortened_parts line).2;
                short = length-shortened-le line;
                names = names;
                event = one_of_five _ _ _ _ _ event;
                no_password = (neither _ _ plain).0;
                no_token = (neither _ _ plain).1;
              },
              rest,
            )))
  where
    both : (a b : Bool) → (not a || not b) ≡ false → (a ≡ true) × (b ≡ true)
    both true true h = (refl, refl)
    both true false h = absurd (cc h)
    both false b h = absurd (cc h)

-- The dashboard shows at most 30 lines of the log, and each is one that may be shown: a line about one
-- of the emulator's events, cut at 480 bytes, in which neither `password` nor `token=` stands, in upper
-- or lower case.
pub public_logs-IsPublic :
    (lower : Bytes → Bytes) (data_read : Bytes)
    → (length (public_logs lower data_read) ≤ 30)
      × All (IsPublic lower (split b'\n' data_read)) (public_logs lower data_read)
unfolding public_logs
public_logs-IsPublic lower data_read =
    let all = public_lines lower (split b'\n' data_read) in
    let good = public_lines-IsPublic lower (split b'\n' data_read) in
    (
      ground (arith, length-drop (length all - 30) all),
      if-public (IsPublic lower (split b'\n' data_read)) (ltb 30 (length all)) _ _
          (λ many. All-drop (IsPublic lower (split b'\n' data_read)) (length all - 30) all good)
          (λ few. good),
    )
