-- ===== src/Manifest/Inject/Injected.antt =====
-- Clean attributes, and a playlist that takes renditions once.
use goflix.Base.{
  List, [], ◌∷◌, ◌++◌, ℕ, ◌≤◌, Bool, true, false, not, ◌||◌, Text, codes, text_eq, ◌==◌, ltb,
  length, keep, any, map, ◌≡◌, ◌≢◌, refl, inl, inr, All, All-take, Bool-cases, arith,
  length-take-le,
}
use goflix.Base.Strings.{trim_space, contains, cut_prefix, has_prefix, split, join}
use goflix.Session.{SubRendition}
use goflix.Manifest.{stream_inf}
use goflix.Manifest.Passes.{trim_space-All}
use goflix.Manifest.Inject.{
  is_plain, sanitize_manifest_attr, sub_rendition_line, is_header, splice, type_subtitles,
  inject_sub_renditions,
}

abbrev pub IsPlainByte : ℕ → Type 0
IsPlainByte c = (32 ≤ c) × ((c == 127) ≡ false) × ((c == b'"') ≡ false) × ((c == b',') ≡ false)

keep-IsPlainByte : (s : Text) → All IsPlainByte (keep is_plain s)
keep-IsPlainByte [] = tt
keep-IsPlainByte (c ∷ s) = elim (Bool-cases (is_plain c)) [
  | inl plain ↦ rw plain (
    (ground (arith, plain), ground (arith, plain), ground (arith, plain), ground (arith, plain)),
    keep-IsPlainByte s,
  )
  | inr special ↦ rw special (keep-IsPlainByte s)
]

-- What `SanitizeManifestAttr` answers holds no double quote, no comma and no control character, so
-- that it cannot end the attribute that it stands in, and is of 96 bytes at most.
pub sanitize_manifest_attr_lem :
    (s : Text)
    → All IsPlainByte (sanitize_manifest_attr s) × (length (sanitize_manifest_attr s) ≤ 96)
unfolding sanitize_manifest_attr
sanitize_manifest_attr_lem s =
    let clean : All IsPlainByte (trim_space (keep is_plain s)) =
      trim_space-All IsPlainByte (keep is_plain s) (keep-IsPlainByte s) in
    elim (Bool-cases (ltb 96 (length (trim_space (keep is_plain s))))) [
      | inl long ↦
          rw (long, sanitize_manifest_attr)
            (
              All-take IsPlainByte 96 (trim_space (keep is_plain s)) clean,
              length-take-le 96 (trim_space (keep is_plain s)),
            )
      | inr short ↦ rw (short, sanitize_manifest_attr) (clean, ground (arith, short))
    ]

cut_prefix-append : (p s t : Text) → has_prefix p s ≡ true → has_prefix p (s ++ t) ≡ true
unfolding cut_prefix
cut_prefix-append [] s t h = refl
cut_prefix-append (c ∷ p) [] t h = absurd (ground (arith, h))
cut_prefix-append (c ∷ p) (d ∷ s) t h = elim (Bool-cases (d == c)) [
  | inl same ↦ rw (same, cut_prefix) (cut_prefix-append p s t (ground (arith, same, h)))
  | inr other ↦ absurd (ground (arith, other, h))
]

contains-append_left : (sub s t : Text) → contains sub s ≡ true → contains sub (s ++ t) ≡ true
unfolding contains
contains-append_left [] [] [] h = unfold cut_prefix in refl
contains-append_left [] [] (c ∷ t) h = unfold cut_prefix in refl
contains-append_left (b ∷ sub) [] t h = absurd (unfold cut_prefix in ground (arith, h))
contains-append_left sub (c ∷ s) t h = elim (Bool-cases (has_prefix sub (c ∷ s))) [
  | inl front ↦ rw (cut_prefix-append sub (c ∷ s) t front, contains) refl
  | inr later ↦ ground (arith, later, h, contains-append_left sub s t)
]

contains-append_right : (sub s t : Text) → contains sub t ≡ true → contains sub (s ++ t) ≡ true
unfolding contains
contains-append_right sub [] t h = h
contains-append_right sub (c ∷ s) t h = ground (arith, contains-append_right sub s t h)

contains-join :
    (sub sep : Text) (ls : List Text)
    → any (λ l. contains sub l) ls ≡ true
    → contains sub (join sep ls) ≡ true
unfolding join
contains-join sub sep [] h = absurd (ground (arith, h))
contains-join sub sep (l ∷ []) h = ground (arith, h)
contains-join sub sep (l ∷ m ∷ ls) h = elim (Bool-cases (contains sub l)) [
  | inl first ↦ contains-append_left sub l (sep ++ join sep (m ∷ ls)) first
  | inr later ↦ contains-append_right sub l (sep ++ join sep (m ∷ ls)) (
      contains-append_right sub sep (join sep (m ∷ ls))
        (contains-join sub sep (m ∷ ls) (ground (arith, later, h))))
]

sub_rendition_line-contains :
    (s : SubRendition) → contains type_subtitles (sub_rendition_line s) ≡ true
unfolding sub_rendition_line contains cut_prefix
sub_rendition_line-contains s = elim (Bool-cases (text_eq s.language [])) [
  | inl unknown ↦ rw (unknown, sub_rendition_line) refl
  | inr known ↦ rw (known, sub_rendition_line) refl
]

any-append : (p : Text → Bool) (xs ys : List Text) → any p xs ≡ true → any p (xs ++ ys) ≡ true
any-append p [] ys h = absurd (ground (arith, h))
any-append p (x ∷ xs) ys h = elim (Bool-cases (p x)) [
  | inl here ↦ ground (arith, here)
  | inr there ↦ ground (arith, any-append p xs ys (ground (arith, there, h)))
]

splice-any :
    (p : Text → Bool) (media lines : List Text)
    → any p media ≡ true
    → any is_header lines ≡ true
    → any p (splice media false lines) ≡ true
unfolding splice
splice-any p media [] m h = absurd (ground (arith, h))
splice-any p media (line ∷ lines) m h = elim (Bool-cases (is_header line)) [
  | inl header ↦
      rw (header, splice) (ground (arith, any-append p media (splice media true lines) m))
  | inr other ↦
      rw (other, splice) (ground (arith, splice-any p media lines m (ground (arith, other, h))))
]

-- A playlist that has taken renditions takes no others: when injecting one set changes a playlist,
-- injecting another set into the result changes nothing.
pub inject_sub_renditions_once :
    (text : Text) (subs others : List SubRendition)
    → inject_sub_renditions text subs ≢ text
    → inject_sub_renditions (inject_sub_renditions text subs) others
      ≡ inject_sub_renditions text subs
unfolding inject_sub_renditions
inject_sub_renditions_once text [] others changed = absurd (changed refl)
inject_sub_renditions_once text (s ∷ subs) others changed =
    elim (Bool-cases (not (contains stream_inf text) || contains type_subtitles text)) [
      | inl kept ↦ absurd (changed (ground (arith, kept)))
      | inr master ↦ elim (Bool-cases (any is_header (split 10 text))) [
        | inr headless ↦ absurd (changed (ground (arith, master, headless)))
        | inl header ↦
            let media : List Text = map sub_rendition_line (s ∷ subs) in
            let out : Text = join (codes "\n") (splice media false (split 10 text)) in
            let result : inject_sub_renditions text (s ∷ subs) ≡ out =
              ground (arith, master, header) in
            let marked : contains type_subtitles out ≡ true =
              contains-join type_subtitles (codes "\n") (splice media false (split 10 text)) (
                splice-any (λ l. contains type_subtitles l) media (split 10 text)
                  (ground (arith, sub_rendition_line-contains s)) header) in
            rw result (untouched out others marked)
      ]
    ]
  where
    untouched :
        (out : Text) (others : List SubRendition)
        → contains type_subtitles out ≡ true
        → inject_sub_renditions out others ≡ out
    untouched out others marked = unfold inject_sub_renditions in ground (arith, marked)
