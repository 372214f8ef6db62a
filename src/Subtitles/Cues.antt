-- ===== src/Subtitles/Cues.antt =====
-- No two cues with one text overlap in what the conversion writes.
use goflix.Base.{
  All-weaken, List, [], ◌∷◌, ◌++◌, ◌≤◌, Bool, true, false, not, ◌||◌, ◌&&◌, Text, codes, text_eq,
  text_eq_iff, text_key, leb, length, if◌then◌else◌, ◌≡◌, refl, inl, inr, All, Bool-cases,
  Option-cases, arith,
}
use mathlib.Core.List.{Memᴰ}
use mathlib.Core.List.Memᴰ
use goflix.Base.Map.{Map, insert, lookup-insert}
use goflix.Base.Strings.{cut_text, has_prefix, trim_space, split}
use goflix.Subtitles.{
  Float, normalize_cue_text, normalize_input, split_blank, text_lines, find_timing, fields,
  parse_cue_timestamp, Cue, Block, dropped, passed, timed, read_cue, read_block, Conversion,
  kept_under, overlaps, is_duplicate, write_cue, write_block, convert, conversion_of,
}

module _ (fl : Float) where
  abbrev key_of : Cue fl → Text
  key_of c = normalize_cue_text c.lines

  -- A later cue against an earlier one
  abbrev pub IsApart : Cue fl → Cue fl → Type 0
  IsApart c k = key_of c ≡ key_of k → overlaps fl c k ≡ false

  -- A block against one that is written earlier
  abbrev pub ApartFrom : Block fl → Block fl → Type 0
  ApartFrom (timed k) (timed c) = IsApart c k
  ApartFrom (timed k) dropped = Unit
  ApartFrom (timed k) (passed b) = Unit
  ApartFrom dropped x = Unit
  ApartFrom (passed b) x = Unit

  abbrev pub AllApart : List (Block fl) → Type 0
  AllApart [] = Unit
  AllApart (b ∷ bs) = All (ApartFrom b) bs × AllApart bs

  -- A cue that ends after it starts and has a line of text
  abbrev pub IsShown : Block fl → Type 0
  IsShown dropped = Unit
  IsShown (passed b) = Unit
  IsShown (timed c) = (fl.le c.end c.start ≡ false) × (1 ≤ length c.lines)

  abbrev IsRecorded : Map Text (List (Cue fl)) → Block fl → Type 0
  IsRecorded m dropped = Unit
  IsRecorded m (passed b) = Unit
  IsRecorded m (timed k) = Memᴰ k (kept_under fl (key_of k) m)

  pub record IsSound (v : Conversion fl) : Type 0 where
    pub apart : AllApart v.written
    pub recorded : All (IsRecorded v.kept_by_text) v.written
    pub shown : All IsShown v.written

  kept_under-insert :
      (key j : Text) (ks : List (Cue fl)) (m : Map Text (List (Cue fl)))
      → kept_under fl j (insert key ks m) ≡ (if text_eq key j then ks else kept_under fl j m)
  unfolding kept_under
  kept_under-insert key j ks m = elim (Bool-cases (text_eq key j)) [
    | inl same ↦ rw (lookup-insert key j ks m, kept_under) (rw same refl)
    | inr other ↦ rw (lookup-insert key j ks m, kept_under) (rw other refl)
  ]

  All-snoc :
      (P : Block fl → Type 0) (bs : List (Block fl)) (x : Block fl)
      → All P bs
      → P x
      → All P (bs ++ x ∷ [])
  All-snoc P [] x h k = (k, tt)
  All-snoc P (b ∷ bs) x h k = (h.0, All-snoc P bs x (h.1) k)

  AllApart-snoc :
      (bs : List (Block fl)) (x : Block fl)
      → AllApart bs
      → All (λ b. ApartFrom b x) bs
      → AllApart (bs ++ x ∷ [])
  AllApart-snoc [] x h k = (tt, tt)
  AllApart-snoc (b ∷ bs) x h k =
      (All-snoc (ApartFrom b) bs x (h.0) (k.0), AllApart-snoc bs x (h.1) (k.1))

  not_overlapping :
      (c k : Cue fl) (ks : List (Cue fl))
      → is_duplicate fl c ks ≡ false
      → Memᴰ k ks
      → overlaps fl c k ≡ false
  unfolding is_duplicate
  not_overlapping c k [] e m = elim m [ ]
  not_overlapping c k (x ∷ ks) e m = elim (Bool-cases (overlaps fl c x)) [
    | inl hit ↦ absurd (ground (arith, hit, e))
    | inr clear ↦ elim m [
      | Memᴰ.head same ↦ rw same clear
      | Memᴰ.tail there ↦ not_overlapping c k ks (ground (arith, clear, e)) there
    ]
  ]

  -- What is known of `v` and a cue `c` that is no duplicate in it
  module _ (c : Cue fl) (v : Conversion fl)
      (e : is_duplicate fl c (kept_under fl (key_of c) v.kept_by_text) ≡ false) where
    apart_now : (b : Block fl) → IsRecorded v.kept_by_text b → ApartFrom b (timed c)
    apart_now dropped r = tt
    apart_now (passed b) r = tt
    apart_now (timed k) r =
        λ same. not_overlapping c k (kept_under fl (key_of c) v.kept_by_text) e (rw same r)

    kept_on :
        (b : Block fl)
        → IsRecorded v.kept_by_text b
        → IsRecorded
            (insert (key_of c) (kept_under fl (key_of c) v.kept_by_text ++ c ∷ []) v.kept_by_text)
            b
    kept_on dropped r = tt
    kept_on (passed b) r = tt
    kept_on (timed k) r = elim (Bool-cases (text_eq (key_of c) (key_of k))) [
      | inl same ↦
          let key : key_of c ≡ key_of k = (text_eq_iff (key_of c) (key_of k)).0 same in
          let there : Memᴰ k (kept_under fl (key_of c) v.kept_by_text) = rw key r in
          rw
            (kept_under-insert (key_of c) (key_of k)
              (kept_under fl (key_of c) v.kept_by_text ++ c ∷ []) v.kept_by_text)
            (rw same (Memᴰ.append_left (c ∷ []) there))
      | inr other ↦
          rw
            (kept_under-insert (key_of c) (key_of k)
              (kept_under fl (key_of c) v.kept_by_text ++ c ∷ []) v.kept_by_text)
            (rw other r)
    ]

    kept_itself :
        IsRecorded
          (insert (key_of c) (kept_under fl (key_of c) v.kept_by_text ++ c ∷ []) v.kept_by_text)
          (timed c)
    kept_itself =
        let self : text_eq (key_of c) (key_of c) ≡ true =
          (text_eq_iff (key_of c) (key_of c)).1 refl in
        rw
          (kept_under-insert (key_of c) (key_of c)
            (kept_under fl (key_of c) v.kept_by_text ++ c ∷ []) v.kept_by_text)
          (rw self (Memᴰ.append_right (kept_under fl (key_of c) v.kept_by_text) (Memᴰ.head refl)))

  write_cue-IsSound :
      (c : Cue fl) (v : Conversion fl) → IsShown (timed c) → IsSound v → IsSound (write_cue fl c v)
  unfolding write_cue
  write_cue-IsSound c v shows s =
      elim (Bool-cases (is_duplicate fl c (kept_under fl (key_of c) v.kept_by_text))) [
        | inl again ↦ rw (again, write_cue) s
        | inr new ↦
            rw (new, write_cue)
              (record {
                apart = AllApart-snoc v.written (timed c) s.apart (
                    All-weaken (IsRecorded v.kept_by_text) (λ b. ApartFrom b (timed c))
                      (apart_now c v new) v.written s.recorded);
                recorded =
                    All-snoc
                      (IsRecorded (
                        insert (key_of c) (kept_under fl (key_of c) v.kept_by_text ++ c ∷ [])
                          v.kept_by_text))
                      v.written (timed c)
                      (All-weaken (IsRecorded v.kept_by_text)
                        (IsRecorded (
                          insert (key_of c) (kept_under fl (key_of c) v.kept_by_text ++ c ∷ [])
                            v.kept_by_text))
                        (kept_on c v new) v.written s.recorded)
                      (kept_itself c v new);
                shown = All-snoc IsShown v.written (timed c) s.shown shows;
              })
      ]

  all_free : (bs : List (Block fl)) (x : Text) → All (λ b. ApartFrom b (passed x)) bs
  all_free [] x = tt
  all_free (dropped ∷ bs) x = (tt, all_free bs x)
  all_free (passed b ∷ bs) x = (tt, all_free bs x)
  all_free (timed c ∷ bs) x = (tt, all_free bs x)

  write_block-IsSound :
      (b : Block fl) (v : Conversion fl) → IsShown b → IsSound v → IsSound (write_block fl b v)
  unfolding write_block
  write_block-IsSound dropped v shows s = s
  write_block-IsSound (passed x) v shows s = record {
    apart = AllApart-snoc v.written (passed x) s.apart (all_free v.written x);
    recorded = All-snoc (IsRecorded v.kept_by_text) v.written (passed x) s.recorded tt;
    shown = All-snoc IsShown v.written (passed x) s.shown tt;
  }
  write_block-IsSound (timed c) v shows s = write_cue-IsSound c v shows s

  read_cue-IsShown :
      (before : Text) (ends lines : List Text) → IsShown (read_cue fl before ends lines)
  unfolding read_cue
  read_cue-IsShown before [] lines = tt
  read_cue-IsShown before (end ∷ rest) lines = elim (Option-cases (parse_cue_timestamp fl before)) [
    | inl bad ↦ rw (bad, read_cue) tt
    | inr (start, e) ↦ elim (Option-cases (parse_cue_timestamp fl end)) [
      | inl bad ↦ rw (e, read_cue) (rw bad tt)
      | inr (stop, f) ↦ elim (Bool-cases (fl.le stop start || leb (length (text_lines lines)) 0)) [
        | inl bad ↦ rw (e, read_cue) (rw f (rw bad tt))
        | inr good ↦ rw (e, read_cue) (rw f (rw good (ground (arith, good), ground (arith, good))))
      ]
    ]
  ]

  read_block-IsShown : (is_vtt : Bool) (raw : Text) → IsShown (read_block fl is_vtt raw)
  unfolding read_block
  read_block-IsShown is_vtt raw = elim (Bool-cases (text_eq (trim_space raw) [])) [
    | inl blank ↦ rw (blank, read_block) tt
    | inr block ↦ elim (Option-cases (find_timing (split 10 (trim_space raw)))) [
      | inl untimed ↦
          elim (Bool-cases (is_vtt && not (has_prefix (codes "WEBVTT") (trim_space raw)))) [
            | inl keeps ↦ rw (block, read_block) (rw untimed (rw keeps tt))
            | inr drops ↦ rw (block, read_block) (rw untimed (rw drops tt))
          ]
      | inr ((line, rest), e) ↦ elim (Option-cases (cut_text (codes "-->") line)) [
        | inl uncut ↦ rw (block, read_block) (rw e (rw uncut tt))
        | inr ((before, after), f) ↦
            rw (block, read_block) (rw e (rw f (read_cue-IsShown before (fields after) rest)))
      ]
    ]
  ]

  convert-IsSound :
      (is_vtt : Bool) (blocks : List Text) (v : Conversion fl)
      → IsSound v
      → IsSound (convert fl is_vtt blocks v)
  unfolding convert
  convert-IsSound is_vtt [] v s = s
  convert-IsSound is_vtt (raw ∷ rest) v s =
      convert-IsSound is_vtt rest (write_block fl (read_block fl is_vtt raw) v)
        (write_block-IsSound (read_block fl is_vtt raw) v (read_block-IsShown is_vtt raw) s)

-- Whatever the comparisons of the times are, no cue that `SrtToWebVTT` writes overlaps an earlier one
-- whose text, folded, is the same; and every cue has a line of text and an end that is not at or
-- before its start.
pub conversion_of-AllApart :
    (fl : Float) (srt : Text)
    → AllApart fl (conversion_of fl srt).written × All (IsShown fl) (conversion_of fl srt).written
unfolding conversion_of
conversion_of-AllApart fl srt =
    let s =
      convert-IsSound fl (has_prefix (codes "WEBVTT") (normalize_input srt))
        (split_blank (normalize_input srt)) (record { written = []; kept_by_text = [] })
        (record { apart = tt; recorded = tt; shown = tt }) in
    (s.apart, s.shown)
