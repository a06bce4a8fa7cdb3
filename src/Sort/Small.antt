-- ===== src/Sort/Small.antt =====
-- The cases of `sexp_merge_sort` on up to three items.
use mathlib.Core.List.{Perm}
use mathlib.Core.List.Perm
use chibi_scheme.Prelude.{
  ℕ, suc, ◌+◌, ◌-◌, ◌<◌, ◌≡◌, ◌⊎◌, refl, Bool, true, false, List, [], ◌∷◌, length, get_or,
  Bool-cases, inl, inr, arith,
}
use chibi_scheme.Sort.{swap, order, case_one}
use chibi_scheme.Sort.Segment.{At}
use chibi_scheme.Sort.Merge.{IsOrder, Sorted}
use chibi_scheme.Sort.Puts.{Puts, Puts-none, Puts-trans, Puts-before, Puts-behind, Puts-swap}

module _ {ℓ} {A : Type ℓ} (d : A) (less : A → A → Bool) (o : IsOrder less) where
  -- One stretch is sorted in place.
  pub record Sorts (v v' : List A) (k : ℕ) (xs : List A) : Type ℓ where
    pub ys : List A
    pub puts : Puts d v v' k xs ys
    pub sorted : Sorted less ys
    pub perm : Perm xs ys

  order-Puts :
      (v : List A) (k j : ℕ) (x y : A)
      → j ≡ suc k
      → suc k < length v
      → At d v k (x ∷ y ∷ [])
      → ((less y x ≡ true) × Puts d v (order d less v j k) k (x ∷ y ∷ []) (y ∷ x ∷ []))
        ⊎ ((less y x ≡ false) × Puts d v (order d less v j k) k (x ∷ y ∷ []) (x ∷ y ∷ []))
  unfolding order
  order-Puts v k j x y q h (e, (f, u)) =
      let g : get_or v j d ≡ y = rw q f in
      elim (Bool-cases (less y x)) [
        | inl t ↦
            let c : less (get_or v j d) (get_or v k d) ≡ true = rw (e, g) t in
            inl (t, rw c (Puts-swap d v k j x y q h (e, (f, tt))))
        | inr t ↦
            let c : less (get_or v j d) (get_or v k d) ≡ false = rw (e, g) t in
            inr (t, rw c (Puts-none d v k (x ∷ y ∷ []) (e, (f, tt))))
      ]

  pub two :
      (v : List A) (k : ℕ) (x y : A)
      → suc k < length v
      → At d v k (x ∷ y ∷ [])
      → Sorts v (case_one d less v k false) k (x ∷ y ∷ [])
  unfolding case_one
  two v k x y h (e, (f, u)) =
      let s : k + 1 ≡ suc k = omega arith in
      elim (Bool-cases (less y x)) [
        | inl t ↦
            let c : less (get_or v (suc k) d) (get_or v k d) ≡ true = rw (e, f) t in
            record {
              ys = y ∷ x ∷ [];
              puts = rw (s, c) (Puts-swap d v k (suc k) x y refl h (e, (f, tt)));
              sorted = ((o.asym y x t, tt), (tt, tt));
              perm = Perm.swap y x [];
            }
        | inr t ↦
            let c : less (get_or v (suc k) d) (get_or v k d) ≡ false = rw (e, f) t in
            record {
              ys = x ∷ y ∷ [];
              puts = rw (s, c) (Puts-none d v k (x ∷ y ∷ []) (e, (f, tt)));
              sorted = ((t, tt), (tt, tt));
              perm = Perm.refl _;
            }
      ]

  -- Case 1 on three items, of which the last two are in order.
  settle :
      (v : List A) (k : ℕ) (x y z : A)
      → suc (suc k) < length v
      → At d v k (x ∷ y ∷ z ∷ [])
      → less z y ≡ false
      → Sorts v (case_one d less v k true) k (x ∷ y ∷ z ∷ [])
  unfolding case_one
  settle v k x y z h (e, (f, (g, u))) q =
      let s : k + 1 ≡ suc k = omega arith in
      let s2 : k + 2 ≡ suc (suc k) = omega arith in
      elim (Bool-cases (less y x)) [
        | inl t ↦
            let c : less (get_or v (suc k) d) (get_or v k d) ≡ true = rw (e, f) t in
            let p =
              Puts-behind d (z ∷ []) (e, (f, (g, tt)))
                (Puts-swap d v k (suc k) x y refl (omega arith) (e, (f, tt))) in
            let w = swap d v (suc k) k in
            elim (order-Puts w (suc k) (suc (suc k)) x z refl (omega (arith, p.total)) p.here.1) [
              | inl (t2, r) ↦ record {
                ys = y ∷ z ∷ x ∷ [];
                puts =
                    rw (s, s2, c) (Puts-trans d p (Puts-before d (y ∷ []) (omega arith) p.here r));
                sorted = ((q, (o.asym y x t, tt)), ((o.asym z x t2, tt), (tt, tt)));
                perm = Perm.trans (Perm.swap y x (z ∷ [])) (Perm.cons y (Perm.swap z x []));
              }
              | inr (t2, r) ↦ record {
                ys = y ∷ x ∷ z ∷ [];
                puts =
                    rw (s, s2, c) (Puts-trans d p (Puts-before d (y ∷ []) (omega arith) p.here r));
                sorted = ((o.asym y x t, (q, tt)), ((t2, tt), (tt, tt)));
                perm = Perm.swap y x (z ∷ []);
              }
            ]
        | inr t ↦
            let c : less (get_or v (suc k) d) (get_or v k d) ≡ false = rw (e, f) t in
            record {
              ys = x ∷ y ∷ z ∷ [];
              puts = rw (s, c) (Puts-none d v k (x ∷ y ∷ z ∷ []) (e, (f, (g, tt))));
              sorted = ((t, (o.above x y z t q, tt)), ((q, tt), (tt, tt)));
              perm = Perm.refl _;
            }
      ]

  pub Sorts_after :
      {v v' v'' : List A} {k : ℕ} {xs zs : List A}
      → Puts d v v' k xs zs
      → Perm xs zs
      → Sorts v' v'' k zs
      → Sorts v v'' k xs
  Sorts_after p r s = record {
    ys = s.ys;
    puts = Puts-trans d p s.puts;
    sorted = s.sorted;
    perm = Perm.trans r s.perm;
  }

  pub three :
      (v : List A) (k hi : ℕ) (x y z : A)
      → hi ≡ k + 2
      → hi < length v
      → At d v k (x ∷ y ∷ z ∷ [])
      → Sorts v (case_one d less (order d less v hi (hi - 1)) k true) k (x ∷ y ∷ z ∷ [])
  three v k hi x y z q h (e, (f, (g, u))) =
      let s : hi - 1 ≡ suc k = omega arith in
      let w = order d less v hi (suc k) in
      let under : (a b : A)
          → Puts d v w (suc k) (y ∷ z ∷ []) (a ∷ b ∷ [])
          → Puts d v w k (x ∷ y ∷ z ∷ []) (x ∷ a ∷ b ∷ []) =
        λ a b p. Puts-before d (x ∷ []) (omega arith) (e, (f, (g, tt))) p in
      rw s (elim (order-Puts v (suc k) hi y z (omega arith) (omega arith) (f, (g, tt))) [
        | inl (t, p) ↦
            let p' = under z y p in
            Sorts_after p' (Perm.cons x (Perm.swap z y []))
              (settle w k x z y (omega (arith, p'.total)) p'.here (o.asym z y t))
        | inr (t, p) ↦
            let p' = under y z p in
            Sorts_after p' (Perm.refl _) (settle w k x y z (omega (arith, p'.total)) p'.here t)
      ])
