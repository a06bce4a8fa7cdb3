-- ===== src/Sort/Puts.antt =====
-- Steps that change one stretch of an array and nothing else.
use chibi_scheme.Prelude.{
  ℕ, suc, ◌+◌, ◌≤◌, ◌<◌, ◌≡◌, ◌⊎◌, inl, inr, refl, sym, ◌∙◌, List, [], ◌∷◌, ◌++◌, length, get_or,
  set, length-set, length-append, get_or-set_self, get_or-set_ne, arith,
}
use chibi_scheme.Sort.{swap}
use chibi_scheme.Sort.Segment.{
  write, At, length-write, get_or-write, At-write_self, At-agree, At-append, At-split,
}

module _ {ℓ} {A : Type ℓ} (d : A) where
  -- The stretch `xs` of `v` at `k` has become `ys`.
  pub record Puts (v v' : List A) (k : ℕ) (xs ys : List A) : Type ℓ where
    pub here : At d v' k ys
    pub size : length ys ≡ length xs
    pub total : length v' ≡ length v
    pub frame : (i : ℕ) → (i < k) ⊎ (k + length xs ≤ i) → get_or v' i d ≡ get_or v i d

  pub Puts-none : (v : List A) (k : ℕ) (xs : List A) → At d v k xs → Puts v v k xs xs
  Puts-none v k xs a = record { here = a; size = refl; total = refl; frame = λ i h. refl }

  pub Puts-trans :
      {v v' v'' : List A} {k : ℕ} {xs ys zs : List A}
      → Puts v v' k xs ys
      → Puts v' v'' k ys zs
      → Puts v v'' k xs zs
  Puts-trans p q = record {
    here = q.here;
    size = q.size ∙ p.size;
    total = q.total ∙ p.total;
    frame = λ i h. q.frame i (rw p.size h) ∙ p.frame i h;
  }

  -- The stretches before and behind are left as they are.
  pub Puts-before :
      {v v' : List A} {k j : ℕ} (ws : List A) {xs ys : List A}
      → j ≡ k + length ws
      → At d v k (ws ++ xs)
      → Puts v v' j xs ys
      → Puts v v' k (ws ++ xs) (ws ++ ys)
  Puts-before {v} {v'} {k} {j} ws {xs} {ys} q a p =
      let (b, c) = At-split d v ws xs k j q a in
      record {
        here =
            At-append d v' ws ys k j q
              (At-agree d v v' k ws (λ i l g. p.frame i (inl (omega arith))) b) p.here;
        size = omega (arith, length-append ws xs, length-append ws ys, p.size);
        total = p.total;
        frame = λ i h. p.frame i (ground (arith, length-append ws xs));
      }

  pub Puts-behind :
      {v v' : List A} {k : ℕ} (ws : List A) {xs ys : List A}
      → At d v k (xs ++ ws)
      → Puts v v' k xs ys
      → Puts v v' k (xs ++ ws) (ys ++ ws)
  Puts-behind {v} {v'} {k} ws {xs} {ys} a p =
      let (b, c) = At-split d v xs ws k (k + length xs) refl a in
      record {
        here =
            At-append d v' ys ws k (k + length xs) (rw p.size refl) p.here
              (At-agree d v v' (k + length xs) ws (λ i l g. p.frame i (inr l)) c);
        size = omega (arith, length-append xs ws, length-append ys ws, p.size);
        total = p.total;
        frame = λ i h. p.frame i (ground (arith, length-append xs ws));
      }

  -- The writes of a loop.
  pub Puts-write :
      (v : List A) (k : ℕ) (xs ys : List A)
      → length ys ≡ length xs
      → k + length xs ≤ length v
      → Puts v (write v k ys) k xs ys
  Puts-write v k xs ys q h = record {
    here = At-write_self d v k ys (omega arith);
    size = q;
    total = length-write d v k ys;
    frame = λ i g. get_or-write d v k ys i (rw q g);
  }

  -- Neighbours change places.
  pub Puts-swap :
      (v : List A) (k j : ℕ) (x y : A)
      → j ≡ suc k
      → suc k < length v
      → At d v k (x ∷ y ∷ [])
      → Puts v (swap d v j k) k (x ∷ y ∷ []) (y ∷ x ∷ [])
  unfolding swap
  Puts-swap v k j x y q h (e, (f, u)) =
      let one = get_or v k d in
      let two = get_or v j d in
      let first = set v j one in
      let l : length first ≡ length v = length-set v j one in
      record {
        here = (
          get_or-set_self first k two d (omega arith) ∙ rw q f,
          (
            rw (sym q) (
                get_or-set_ne first k j two d (λ z. omega arith)
                ∙ get_or-set_self v j one d (omega arith)
                ∙ e),
            tt,
          ),
        );
        size = refl;
        total = length-set first k two ∙ l;
        frame = λ i g.
            get_or-set_ne first k i two d (ground arith) ∙ get_or-set_ne v j i one d (ground arith);
      }
