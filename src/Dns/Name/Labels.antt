-- ===== src/Dns/Name/Labels.antt =====
-- A name as its list of labels: the wire form of labels, and what `encodeDNSName` accepts.
use yachtsense_link_emulator.Common.{
  ◌≤◌, true, List, [], ◌∷◌, ◌++◌, append_assoc, ◌≡◌, refl, sym, ap, ◌∙◌, ◌⊎◌, inl, inr, arith,
  length, All, ok, >>=-eq-ok, refuse_if, ◌>>◌, Bool-cases, ltb, ◌==◌, ◌||◌,
}
use yachtsense_link_emulator.Common.Bytes.{Bytes, codes, equal, split, trim_suffix_byte}
use yachtsense_link_emulator.Dns.Types.{DnsResult, name_too_long}
use yachtsense_link_emulator.Dns.Name.{encode_labels, encode_dns_name}
use yachtsense_link_emulator.Dns.Name.Split.{EndsFull, split-ne-nil}

-- Labels, each behind its length
abbrev pub wire_labels : List Bytes → Bytes
wire_labels [] = []
wire_labels (l ∷ ls) = length l ∷ l ++ wire_labels ls

-- A label has 1 to 63 bytes.
abbrev pub IsLabel : Bytes → Type 0
IsLabel l = (1 ≤ length l) × (length l ≤ 63)

pub wire_labels-append : (a b : List Bytes) → wire_labels (a ++ b) ≡ wire_labels a ++ wire_labels b
wire_labels-append [] b = refl
wire_labels-append (l ∷ a) b =
    ap (λ t. length l ∷ t) (ap (◌++◌ l) (wire_labels-append a b) ∙ sym (append_assoc l _ _))

-- What an uncompressed name on the wire is: labels and the root, at most 255 bytes.
pub record IsWire (w : Bytes) : Type 0 where
  pub labels : List Bytes
  pub each : All IsLabel labels
  pub spelled : w ≡ wire_labels labels ++ 0 ∷ []
  pub short : length w ≤ 255

pub encode_labels-wire_labels :
    (ls : List Bytes) {out : Bytes}
    → encode_labels ls ≡ ok out
    → (out ≡ wire_labels ls) × All IsLabel ls
unfolding encode_labels
encode_labels-wire_labels [] h = (cc, tt)
encode_labels-wire_labels (l ∷ ls) h = elim (Bool-cases (length l == 0 || ltb 63 (length l))) [
  | inl bad ↦ cc (rw bad at h)
  | inr good ↦
      let (rest, e, k) = >>=-eq-ok (encode_labels ls) _ (rw good at h) in
      let (same, each) = encode_labels-wire_labels ls e in
      (sym (ground (arith, k)) ∙ ap (λ t. length l ∷ l ++ t) same, (ground arith, each))
]

EndsFull-of_labels : (p : Bytes) (ps : List Bytes) → All IsLabel (p ∷ ps) → EndsFull (p ∷ ps)
EndsFull-of_labels p [] h = λ e. omega (arith, h.0.0, ap length e)
EndsFull-of_labels p (q ∷ ps) h = EndsFull-of_labels q ps h.1

-- What `encodeDNSName` returns is a wire name, and it spells the labels of the name.
pub record Encodes (name w : Bytes) : Type 0 where
  pub labels : List Bytes
  pub each : All IsLabel labels
  pub spelled : w ≡ wire_labels labels ++ 0 ∷ []
  pub short : length w ≤ 255
  pub parts :
      ((labels ≡ []) × (trim_suffix_byte b'.' name ≡ []))
      ⊎ ((labels ≡ split b'.' (trim_suffix_byte b'.' name)) × EndsFull labels)

root_names :
    (name : Bytes)
    → (equal name [] || equal name (codes ".")) ≡ true
    → trim_suffix_byte b'.' name ≡ []
unfolding equal trim_suffix_byte
root_names [] h = refl
root_names (x ∷ []) h = ground arith
root_names (x ∷ y ∷ s) h = ground arith

-- The end of `encodeDNSName`
encode_finish :
    (ws : Bytes) {w : Bytes}
    → (refuse_if (ltb 255 (length (ws ++ 0 ∷ []))) name_too_long >> ok (ws ++ 0 ∷ [])) ≡ ok w
    → (w ≡ ws ++ 0 ∷ []) × (length w ≤ 255)
encode_finish ws h = ground arith

encode_root :
    {w : Bytes} → ◌≡◌ {A = DnsResult Bytes} (ok (0 ∷ [])) (ok w) → (w ≡ 0 ∷ []) × (length w ≤ 255)
encode_root h = ground arith

pub encode_dns_name-Encodes :
    (name : Bytes) {w : Bytes} → encode_dns_name name ≡ ok w → Encodes name w
unfolding encode_dns_name
encode_dns_name-Encodes name {w} h = elim (Bool-cases (equal name [] || equal name (codes "."))) [
  | inl root ↦ at_root root (encode_root (rw root at h))
  | inr other ↦
      in_labels
        (>>=-eq-ok (encode_labels (split b'.' (trim_suffix_byte b'.' name))) _ (rw other at h))
]
  where
    at_root :
        (equal name [] || equal name (codes ".")) ≡ true
        → (w ≡ 0 ∷ []) × (length w ≤ 255)
        → Encodes name w
    at_root root (same, short) = record {
      labels = [];
      each = tt;
      spelled = same;
      short = short;
      parts = inl (refl, root_names name root);
    }

    in_labels :
        (ws : Bytes) × (encode_labels (split b'.' (trim_suffix_byte b'.' name)) ≡ ok ws)
          × ((refuse_if (ltb 255 (length (ws ++ 0 ∷ []))) name_too_long >> ok (ws ++ 0 ∷ []))
              ≡ ok w)
        → Encodes name w
    in_labels (ws, e, k) =
        let (same, each) = encode_labels-wire_labels _ e in
        let (p, ps, s) = split-ne-nil b'.' (trim_suffix_byte b'.' name) in
        let done = encode_finish ws k in
        record {
          labels = split b'.' (trim_suffix_byte b'.' name);
          each = each;
          spelled = done.0 ∙ ap (λ t. t ++ 0 ∷ []) same;
          short = done.1;
          parts = inr (refl, rw s (EndsFull-of_labels p ps (rw s at each)));
        }
