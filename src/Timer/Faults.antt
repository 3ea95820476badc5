-- ===== src/Timer/Faults.antt =====
-- When the pass over the tasks follows a null pointer.
use libff.Prelude.{
  ℕ, ◌≡◌, refl, ◌≢◌, inl, inr, true, false, none, some, List, [], ◌∷◌, arith, Bool-cases,
}
use libff.Timer.Nodes.{Ptr, TimerTask, Heap, write}
use libff.Timer.Chain.{Cells, first, has, linked, Chain, frame-first}
use libff.Timer.Expiry.{is_due, kept, kept-nil, last_due}
use libff.Timer.{expire_loop, unlink_between}

-- Behind a task that stays, a last task that is due faults.
pass_faults :
    (rs : List ℕ) (h : Heap) (tasks : Ptr) (b : ℕ) (u : TimerTask) (xs : Cells)
    → h b ≡ some u
    → Chain h (some b) xs
    → has b xs ≡ false
    → last_due rs xs ≡ true
    → expire_loop rs h tasks (first xs) ≡ none
unfolding expire_loop last_due write
pass_faults [] h tasks b u xs hb ch ib s = cc
pass_faults (now ∷ rs) h tasks b u [] hb ch ib s = cc
pass_faults (now ∷ rs) h tasks b u ((c, v) ∷ []) hb ch ib s = rw (ch.0, s, hb) refl
pass_faults (now ∷ rs) h tasks b u ((c, v) ∷ (d, w) ∷ xs) hb ch ib s =
    let h1 = write h b (some (record u { next = some d })) in
    let h2 = write h1 d (some (linked w (first xs) (some b))) in
    let unlinked : unlink_between h (some b) (some d) ≡ some h2 = ground arith in
    elim (Bool-cases (is_due now v)) [
      | inl due ↦
          rw (ch.0, due, unlinked)
            (rw
              (pass_faults rs h2 tasks b (record u { next = some d }) ((d, w) ∷ xs) (ground arith)
                (frame-first (some c) (some b) d w xs ch.2 (ground arith) (λ i o. ground arith))
                (ground arith) s)
              refl)
      | inr stays ↦
          rw (ch.0, stays)
            (pass_faults rs h tasks c (linked v (some d) (some b)) ((d, w) ∷ xs) ch.0 ch.2 ch.1 s)
    ]

-- When the last task of the list is due or cancelled and another one stays, the pass goes through a
-- null pointer.
pub expire_loop_faults :
    (rs : List ℕ) (h : Heap) (xs : Cells)
    → Chain h none xs
    → last_due rs xs ≡ true
    → kept rs xs ≢ []
    → expire_loop rs h (first xs) (first xs) ≡ none
unfolding expire_loop kept last_due write
expire_loop_faults [] h xs ch s k = cc
expire_loop_faults (now ∷ rs) h [] ch s k = cc
expire_loop_faults (now ∷ rs) h ((a, t) ∷ []) ch s k = absurd (k rw s (kept-nil rs))
expire_loop_faults (now ∷ rs) h ((a, t) ∷ (d, w) ∷ xs) ch s k =
    let g1 = write h d (some (linked w (first xs) none)) in
    elim (Bool-cases (is_due now t)) [
      | inl due ↦
          rw (ch.0, due, ch.2.0)
            (rw
              (expire_loop_faults rs g1 ((d, w) ∷ xs)
                (frame-first (some a) none d w xs ch.2 (ground arith) (λ i o. ground arith)) s
                (λ e. k (rw due e)))
              refl)
      | inr stays ↦
          rw (ch.0, stays)
            (pass_faults rs h (some a) a (linked t (some d) none) ((d, w) ∷ xs) ch.0 ch.2 ch.1 s)
    ]
