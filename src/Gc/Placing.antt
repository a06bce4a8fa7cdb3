-- ===== src/Gc/Placing.antt =====
-- gc.c: what an allocation does to a layout, when the new object's header is written.
use chibi_scheme.Prelude.{
  ℕ, ◌+◌, ◌-◌, ◌%◌, ◌≤◌, ◌<◌, ◌≡◌, ◌≢◌, ◌⊎◌, ◌↔◌, inl, inr, refl, Bool, true, false, List, [], ◌∷◌,
  ◌==◌, arith, if◌then◌else◌,
}
use chibi_scheme.Gc.{Objects, unit, heap_align}
use chibi_scheme.Gc.Marking.{Member}
use chibi_scheme.Gc.Layout.{Cell, free, used, extent, total, IsTiled, heap_align_pos}
use chibi_scheme.Gc.Survivors.{places}
use chibi_scheme.Gc.Taking.{IsAligned, Takes, split, fill, past}

-- The header of an object of `b` bytes, without the mark
abbrev pub install : ℕ → ℕ → Objects → Objects
install p b objs = λ a. if a == p then record { bytes = b; markedp = false } else objs a

pub install_other : (p b a : ℕ) (objs : Objects) → a ≢ p → install p b objs a ≡ objs a
install_other p b a objs h = let t : (a == p) ≡ false = ground arith in rw t refl

pub install_here :
    (p b : ℕ) (objs : Objects)
    → ((install p b objs p).bytes ≡ b) × ((install p b objs p).markedp ≡ false)
install_here p b objs = let t : (p == p) ≡ true = ground arith in rw t (refl, refl)

pub extent_pos :
    (flag : Bool) (c : Cell) (cells : List Cell) → IsTiled flag (c ∷ cells) → 0 < extent c
extent_pos true (free n) cells h = elim h [ ]
extent_pos false (free n) cells (pos, h) = pos
extent_pos flag (used b m) cells (pos, h) = heap_align_pos b pos

pub IsTiled-tail :
    (flag : Bool) (c : Cell) (cells : List Cell)
    → IsTiled flag (c ∷ cells)
    → (rest : Bool) × IsTiled rest cells
IsTiled-tail true (free n) cells h = elim h [ ]
IsTiled-tail false (free n) cells (pos, h) = (true, h)
IsTiled-tail flag (used b m) cells (pos, h) = (false, h)

IsTiled-weaken : (cells : List Cell) → IsTiled true cells → IsTiled false cells
IsTiled-weaken [] h = tt
IsTiled-weaken (free n ∷ cells) h = elim h [ ]
IsTiled-weaken (used b m ∷ cells) h = h

pub place_range :
    (flag : Bool) (a q : ℕ) (cells : List Cell)
    → IsTiled flag cells
    → Member q (places a cells)
    → (a ≤ q) × (q < a + total cells)
place_range flag a q [] h i = elim i [ ]
place_range true a q (free n ∷ cells) h i = elim h [ ]
place_range false a q (free n ∷ cells) (pos, h) i =
    let (l, k) = place_range true (a + n) q cells h i in (omega arith, omega arith)
place_range flag a q (used b m ∷ cells) (pos, h) (inl e) =
    let l = heap_align_pos b pos in (omega arith, omega arith)
place_range flag a q (used b m ∷ cells) (pos, h) (inr i) =
    let (l, k) = place_range false (a + heap_align b) q cells h i in (omega arith, omega arith)

pub Takes-range :
    (b p a : ℕ) (cells cells' : List Cell)
    → 0 < b
    → Takes b p a cells cells'
    → (a ≤ p) × (p < a + total cells)
Takes-range b p _ _ _ pos (split {n} {cells} h) =
    let k = heap_align_pos b pos in (omega arith, omega arith)
Takes-range b p _ _ _ pos (fill {cells}) =
    let k = heap_align_pos b pos in (omega arith, omega arith)
Takes-range b p _ _ _ pos (past {a} {cells} {cells'} c s t) =
    let (l, k) = Takes-range b p (a + extent c) cells cells' pos t in (omega arith, omega arith)

pub Takes-total :
    (b p a : ℕ) (cells cells' : List Cell) → Takes b p a cells cells' → total cells' ≡ total cells
Takes-total b p _ _ _ (split {n} {cells} h) = ground arith
Takes-total b p _ _ _ (fill {cells}) = refl
Takes-total b p _ _ _ (past {a} {cells} {cells'} c s t) =
    let e = Takes-total b p (a + extent c) cells cells' t in omega arith

pub Takes-IsTiled :
    (b p a : ℕ) (flag : Bool) (cells cells' : List Cell)
    → 0 < b
    → Takes b p a cells cells'
    → IsTiled flag cells
    → IsTiled flag cells'
Takes-IsTiled b p _ true _ _ pos (split {n} {cells} l) h = elim h [ ]
Takes-IsTiled b p _ false _ _ pos (split {n} {cells} l) (k, h) = (pos, (ground arith, h))
Takes-IsTiled b p _ true _ _ pos (fill {cells}) h = elim h [ ]
Takes-IsTiled b p _ false _ _ pos (fill {cells}) (k, h) = (pos, IsTiled-weaken cells h)
Takes-IsTiled b p _ true _ _ pos (past {a} {cells} {cells'} (free n) s t) h = elim h [ ]
Takes-IsTiled b p _ false _ _ pos (past {a} {cells} {cells'} (free n) s t) (k, h) =
    (k, Takes-IsTiled b p (a + n) true cells cells' pos t h)
Takes-IsTiled b p _ flag _ _ pos (past {a} {cells} {cells'} (used c m) s t) (k, h) =
    (k, Takes-IsTiled b p (a + heap_align c) false cells cells' pos t h)

rest_IsAligned : (b n : ℕ) → n % 32 ≡ 0 → heap_align b + unit ≤ n → (n - heap_align b) % 32 ≡ 0
unfolding heap_align
rest_IsAligned b n h k = omega arith

pub Takes-IsAligned :
    (b p a : ℕ) (cells cells' : List Cell)
    → Takes b p a cells cells'
    → IsAligned cells
    → IsAligned cells'
Takes-IsAligned b p _ _ _ (split {n} {cells} l) (k, h) = (rest_IsAligned b n k l, h)
Takes-IsAligned b p _ _ _ (fill {cells}) (k, h) = h
Takes-IsAligned b p _ _ _ (past {a} {cells} {cells'} (free n) s t) (k, h) =
    (k, Takes-IsAligned b p (a + n) cells cells' t h)
Takes-IsAligned b p _ _ _ (past {a} {cells} {cells'} (used c m) s t) h =
    Takes-IsAligned b p (a + heap_align c) cells cells' t h

-- The new object is added to those that are there.
pub Takes-places :
    (b p a q : ℕ) (cells cells' : List Cell)
    → Takes b p a cells cells'
    → Member q (places a cells') ↔ ((q ≡ p) ⊎ Member q (places a cells))
Takes-places b p _ q _ _ (split {n} {cells} l) =
    let e : p + heap_align b + (n - heap_align b) ≡ p + n = ground arith in rw e (λ i. i, λ i. i)
Takes-places b p _ q _ _ (fill {cells}) = (λ i. i, λ i. i)
Takes-places b p _ q _ _ (past {a} {cells} {cells'} (free n) s t) =
    Takes-places b p (a + n) q cells cells' t
Takes-places b p _ q _ _ (past {a} {cells} {cells'} (used c m) s t) =
    let rest = Takes-places b p (a + heap_align c) q cells cells' t in
    (
      λ i. elim i [
        | inl e ↦ inr (inl e)
        | inr j ↦ elim (rest.0 j) [ inl e ↦ inl e | inr k ↦ inr (inr k) ]
      ],
      λ i. elim i [
        | inl e ↦ inr (rest.1 (inl e))
        | inr j ↦ elim j [ inl e ↦ inl e | inr k ↦ inr (rest.1 (inr k)) ]
      ],
    )
