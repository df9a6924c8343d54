-- ===== src/Scheduler/Hell/Fill/Fewest.antt =====
-- How many additional replicas the fill loop tries for a job: those of its least remaining time.
use pinta_scheduler.Prelude.{
  ltb, ℕ, zero, suc, ◌+◌, ◌≤◌, ◌<◌, ◌≡◌, refl, sym, subst, ◌∙◌, ◌⊎◌, inl, inr, true, false, none,
  some, List, arith, if◌then◌else◌, Bool-cases, length, get_elem?, get_elem?-All,
  get_elem?-in_bounds, get_elem?-beyond,
}
use pinta_scheduler.Prelude.Int.{pos, ◌+ℤ◌, ltb_ℤ}
use pinta_scheduler.Controller.Result.{ok}
use pinta_scheduler.Scheduler.Hell.Ratios.{FloatApi}
use pinta_scheduler.Scheduler.Hell.Place.Least.{FloatOrder, Numbers}
use pinta_scheduler.Scheduler.Hell.Fill.{try_more}
use pinta_scheduler.Scheduler.Hell.Fill.Pick.{index_sub, is_within}

is_over : (l r a : ℕ) → ltb_ℤ (pos l) (pos (suc r) +ℤ pos a) ≡ true → l ≤ r + a
unfolding ◌+ℤ◌
is_over l r a h = ground (arith, h)

pub some-none {ℓ} : {A : Type ℓ} {x : A} → some x ≡ none → ⊥
some-none e = cc

module _ {R : Type 0} (fl : FloatApi R) (o : FloatOrder fl) (r : ℕ) (ts : List R) where
  -- Of the times of a job with `suc r` replicas and fewer than `n` more, `best.0` is a least one, and
  -- the first of its size. Without a time below math.MaxFloat64 no replica is added.
  pub record IsBest (n : ℕ) (best : R × ℕ) : Type 0 where
    pub number : o.is_number best.0 ≡ true
    pub below : best.1 ≤ n
    pub at : ((best.0 ≡ fl.max_float) × (best.1 ≡ 0)) ⊎ (get_elem? ts (r + best.1) ≡ some best.0)
    pub least : (j : ℕ) (x : R) → get_elem? ts (r + j) ≡ some x → j < n → fl.less x best.0 ≡ false
    pub first :
        (j : ℕ) (x : R) → get_elem? ts (r + j) ≡ some x → j < best.1 → fl.less best.0 x ≡ true

  module _ (numbers : Numbers o ts) where
    is_less :
        (b x y : R)
        → o.is_number b ≡ true
        → o.is_number x ≡ true
        → o.is_number y ≡ true
        → fl.less y b ≡ false
        → fl.less x b ≡ true
        → fl.less x y ≡ true
    is_less b x y hb hx hy h k = ground (arith, o.not_less_trans x y b hx hy hb, h, k)

    not_below :
        (b x y : R)
        → o.is_number b ≡ true
        → o.is_number x ≡ true
        → o.is_number y ≡ true
        → fl.less y b ≡ false
        → fl.less x b ≡ true
        → fl.less y x ≡ false
    not_below b x y hb hx hy h k = o.not_less_trans y b x hy hb hx h (o.less_asym x b hx hb k)

    IsBest-next :
        (a : ℕ) (best : R × ℕ) (t : R)
        → get_elem? ts (r + a) ≡ some t
        → IsBest a best
        → IsBest (suc a) (if fl.less t best.0 then (t, a) else best)
    IsBest-next a best t at_a h =
        let t_number = get_elem?-All _ ts (r + a) t numbers at_a in
        elim (Bool-cases (fl.less t best.0)) [
          | inl less ↦ rw less (record {
            number = t_number;
            below = omega arith;
            at = inr at_a;
            least = λ j x at_j j_below. elim (Bool-cases (ltb j a)) [
              | inl earlier ↦
                  not_below best.0 t x h.number t_number (get_elem?-All _ ts (r + j) x numbers at_j)
                    (h.least j x at_j (ground (arith, earlier))) less
              | inr now ↦
                  let same : j ≡ a = ground (arith, now, j_below) in
                  let is_t : x ≡ t = ground (arith, at_j, at_a, same) in rw is_t (o.less_irrefl t)
            ];
            first = λ j x at_j j_below.
                is_less best.0 t x h.number t_number (get_elem?-All _ ts (r + j) x numbers at_j)
                  (h.least j x at_j j_below) less;
          })
          | inr more ↦ rw more (record {
            number = h.number;
            below = ground (arith, h.below);
            at = h.at;
            least = λ j x at_j j_below. elim (Bool-cases (ltb j a)) [
              | inl earlier ↦ h.least j x at_j (ground (arith, earlier))
              | inr now ↦
                  let same : j ≡ a = ground (arith, now, j_below) in
                  let is_t : x ≡ t = ground (arith, at_j, at_a, same) in rw is_t more
            ];
            first = h.first;
          })
        ]

    IsBest-end :
        (a n : ℕ) (best : R × ℕ) → length ts ≤ r + a → a ≤ n → IsBest a best → IsBest n best
    IsBest-end a n best over within h = record {
      number = h.number;
      below = ground (arith, h.below, within);
      at = h.at;
      least = λ j x at_j j_below. elim (Bool-cases (ltb j a)) [
        | inl earlier ↦ h.least j x at_j (ground (arith, earlier))
        | inr later ↦
            absurd
              (some-none (sym at_j ∙ get_elem?-beyond ts (r + j) (ground (arith, later, over))))
      ];
      first = h.first;
    }

    try_more-IsBest :
        (rounds a : ℕ) (best : R × ℕ)
        → IsBest a best
        → (out : R × ℕ) × (try_more fl rounds a (pos (suc r)) ts best ≡ ok out)
          × IsBest (a + rounds) out
    unfolding try_more
    try_more-IsBest zero a best h = (best, refl, subst (λ n. IsBest n best) (omega arith) h)
    try_more-IsBest (suc rounds) a best h =
        elim (Bool-cases (ltb_ℤ (pos (length ts)) (pos (suc r) +ℤ pos a))) [
          | inl over ↦ (
            best,
            rw over refl,
            IsBest-end a (a + suc rounds) best (is_over (length ts) r a over) (omega arith) h,
          )
          | inr under ↦
              let (t, at_a) = get_elem?-in_bounds ts (r + a) (is_within (length ts) r a under) in
              let (out, e, best') =
                try_more-IsBest rounds (suc a) (if fl.less t best.0 then (t, a) else best)
                  (IsBest-next a best t at_a h) in
              (
                out,
                rw (under, index_sub r a, at_a) e,
                subst (λ n. IsBest n out) (omega arith) best',
              )
        ]

    -- A job with so many replicas gets those in addition, up to `n`, that bring its remaining time to
    -- the least.
    pub try_more_lem :
        (n : ℕ)
        → (out : R × ℕ) × (try_more fl (suc n) 0 (pos (suc r)) ts (fl.max_float, 0) ≡ ok out)
          × IsBest (suc n) out
    try_more_lem n =
        let (out, e, best) =
          try_more-IsBest (suc n) 0 (fl.max_float, 0)
            (record {
              number = o.max_is_number;
              below = omega arith;
              at = inl (refl, refl);
              least = λ j x at_j j_below. absurd (omega arith);
              first = λ j x at_j j_below. absurd (omega arith);
            }) in
        (out, e, subst (λ m. IsBest m out) (omega arith) best)
