-- ===== src/ReadAhead/Window.antt =====
-- The loop of `pumpPrefetch` over the segments of its window.
use goflix.Base.{
  append_nil, sublist_nil, All-weaken, List, [], ◌∷◌, ◌++◌, ℕ, suc, ◌+◌, ◌≤◌, ◌<◌, Bool, true,
  false, ◌||◌, none, Text, text_eq, text_eq_iff, text_key, leb, is_some, length, ◌≡◌, refl, sym, ap,
  ◌∙◌, inl, inr, All, any, Bool-cases, arith, length-append,
}
use mathlib.Core.List.{Sublistᴰ}
use goflix.Base.Map.{Map, insert, lookup-insert}
use goflix.BodyCache.{BodyCache, get}
use goflix.BodyCache.Bound.{IsValid, get-IsValid}
use goflix.BodyCache.Contents.{get-get}
use goflix.ReadAhead.{is_inflight, is_backing_off, Pumping, consider, pump_loop}

abbrev pub is_among : Text → List Text → Bool
is_among raw ts = any (λ t. text_eq t raw) ts

abbrev pub NoRepeat : List Text → Type 0
NoRepeat [] = Unit
NoRepeat (t ∷ ts) = (is_among t ts ≡ false) × NoRepeat ts

append_snoc : (ts us : List Text) (t : Text) → (ts ++ t ∷ []) ++ us ≡ ts ++ t ∷ us
append_snoc [] us t = refl
append_snoc (x ∷ ts) us t = ap (λ r. x ∷ r) (append_snoc ts us t)

is_inflight-insert :
    (raw x : Text) (m : Map Text Bool)
    → is_inflight x (insert raw true m) ≡ text_eq raw x || is_inflight x m
unfolding is_inflight
is_inflight-insert raw x m = elim (Bool-cases (text_eq raw x)) [
  | inl same ↦ rw (lookup-insert raw x true m, is_inflight) (rw same refl)
  | inr apart ↦ rw (lookup-insert raw x true m, is_inflight) (rw apart refl)
]

-- None of them in flight once `raw` is: `raw` is not among them.
absent :
    (raw : Text) (m : Map Text Bool) (ts : List Text)
    → All (λ t. is_inflight t (insert raw true m) ≡ false) ts
    → is_among raw ts ≡ false
absent raw m [] h = refl
absent raw m (t ∷ ts) h = ground (
  arith,
  h.0,
  is_inflight-insert raw t m,
  text_eq_iff raw t,
  text_eq_iff t raw,
  absent raw m ts (h.1),
)

module _ (busy : Text → Bool) (now : ℕ) (failed : Map Text ℕ) where
  -- A segment that nobody has and nobody is fetching, and that has not failed lately.
  abbrev pub IsWanted : Map Text Bool → BodyCache → Text → Type 0
  IsWanted marked cache raw =
      (is_inflight raw marked ≡ false)
      × ((get cache raw now).1 ≡ none)
      × (busy raw ≡ false)
      × (is_backing_off now raw failed ≡ false)

  -- What the loop does from `p` over the rest of the window, to `q`: the segments it adds.
  pub record IsPumped (most : ℕ) (rest : List Text) (p q : Pumping) : Type 0 where
    pub new : List Text
    pub appended : q.targets ≡ p.targets ++ new
    pub in_order : Sublistᴰ new rest
    pub wanted : All (IsWanted p.marked p.cache) new
    pub distinct : NoRepeat new
    pub few : length p.targets ≤ most → length p.targets + length new ≤ most
    pub now_marked :
        (raw : Text) → is_inflight raw q.marked ≡ is_inflight raw p.marked || is_among raw new

  module _ (most : ℕ) where
    stopped : (rest : List Text) (p : Pumping) → IsPumped most rest p p
    stopped rest p = record {
      new = [];
      appended = sym (append_nil p.targets);
      in_order = sublist_nil rest;
      wanted = tt;
      distinct = tt;
      few = λ h. ground (arith, h);
      now_marked = λ raw. ground arith;
    }

    counted :
        (raw : Text) (rest : List Text) (p q : Pumping)
        → IsPumped most rest (record p { inflight_count = suc p.inflight_count }) q
        → IsPumped most (raw ∷ rest) p q
    counted raw rest p q h = record {
      new = h.new;
      appended = h.appended;
      in_order = Sublistᴰ.cons h.in_order;
      wanted = h.wanted;
      distinct = h.distinct;
      few = h.few;
      now_marked = h.now_marked;
    }

    passed :
        (raw : Text) (rest : List Text) (p q : Pumping)
        → IsValid p.cache
        → IsPumped most rest (record p { cache = (get p.cache raw now).0 }) q
        → IsPumped most (raw ∷ rest) p q
    passed raw rest p q v h = record {
      new = h.new;
      appended = h.appended;
      in_order = Sublistᴰ.cons h.in_order;
      wanted =
          All-weaken (IsWanted p.marked (get p.cache raw now).0) (IsWanted p.marked p.cache)
            (λ t w. (w.0, sym (get-get p.cache raw t now v) ∙ w.1, w.2, w.3)) h.new h.wanted;
      distinct = h.distinct;
      few = h.few;
      now_marked = h.now_marked;
    }

    started :
        (raw : Text) (rest : List Text) (p q : Pumping)
        → IsValid p.cache
        → IsWanted p.marked p.cache raw
        → p.inflight_count + length p.targets < most
        → IsPumped most rest
            (record p {
              cache = (get p.cache raw now).0;
              marked = insert raw true p.marked;
              targets = p.targets ++ raw ∷ [];
            })
            q
        → IsPumped most (raw ∷ rest) p q
    started raw rest p q v w room h = record {
      new = raw ∷ h.new;
      appended = h.appended ∙ append_snoc p.targets h.new raw;
      in_order = Sublistᴰ.cons-cons refl h.in_order;
      wanted = (
        w,
        All-weaken (IsWanted (insert raw true p.marked) (get p.cache raw now).0)
            (IsWanted p.marked p.cache)
            (λ t x. (
              ground (arith, is_inflight-insert raw t p.marked, x.0),
              sym (get-get p.cache raw t now v) ∙ x.1,
              x.2,
              x.3,
            ))
            h.new h.wanted,
      );
      distinct = (
        absent raw p.marked h.new (
            All-weaken (IsWanted (insert raw true p.marked) (get p.cache raw now).0)
              (λ t. is_inflight t (insert raw true p.marked) ≡ false) (λ t x. x.0) h.new h.wanted),
        h.distinct,
      );
      few = λ small. ground (arith, room, h.few, length-append p.targets (raw ∷ []));
      now_marked = λ x. ground (arith, h.now_marked x, is_inflight-insert raw x p.marked);
    }

    pub considered :
        (raw : Text) (rest : List Text) (p q : Pumping)
        → IsValid p.cache
        → is_inflight raw p.marked ≡ false
        → p.inflight_count + length p.targets < most
        → IsPumped most rest (consider busy now failed most raw p) q
        → IsPumped most (raw ∷ rest) p q
    unfolding consider
    considered raw rest p q v idle room h =
        elim (Bool-cases
          (is_some ((get p.cache raw now).1) || (busy raw || is_backing_off now raw failed))) [
            | inl skip ↦ passed raw rest p q v (rw (skip, consider) at h)
            | inr go ↦
                started raw rest p q v
                  (idle, ground (arith, go), ground (arith, go), ground (arith, go)) room
                  (rw (go, consider) at h)
          ]

    pub consider-IsValid :
        (raw : Text) (p : Pumping)
        → IsValid p.cache
        → IsValid ((consider busy now failed most raw p).cache)
    unfolding consider
    consider-IsValid raw p v =
        elim (Bool-cases
          (is_some ((get p.cache raw now).1) || (busy raw || is_backing_off now raw failed))) [
            | inl skip ↦ rw (skip, consider) (get-IsValid p.cache raw now v)
            | inr go ↦ rw (go, consider) (get-IsValid p.cache raw now v)
          ]

    pub pump_loop-IsPumped :
        (rest : List Text) (p : Pumping)
        → IsValid p.cache
        → IsPumped most rest p (pump_loop busy now failed most rest p)
    unfolding pump_loop
    pump_loop-IsPumped [] p v = stopped [] p
    pump_loop-IsPumped (raw ∷ rest) p v = elim (Bool-cases (is_inflight raw p.marked)) [
      | inl flying ↦
          rw (flying, pump_loop)
            (counted raw rest p
              (pump_loop busy now failed most rest
                (record p { inflight_count = suc p.inflight_count }))
              (pump_loop-IsPumped rest (record p { inflight_count = suc p.inflight_count }) v))
      | inr idle ↦ elim (Bool-cases (leb most (p.inflight_count + length p.targets))) [
        | inl full ↦ rw (idle, pump_loop) (rw full (stopped (raw ∷ rest) p))
        | inr room ↦
            rw (idle, pump_loop)
              (rw room (
                considered raw rest p
                  (pump_loop busy now failed most rest (consider busy now failed most raw p)) v idle
                  (ground (arith, room))
                  (pump_loop-IsPumped rest (consider busy now failed most raw p)
                    (consider-IsValid raw p v))))
      ]
    ]
