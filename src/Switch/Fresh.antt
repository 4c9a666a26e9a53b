-- ===== src/Switch/Fresh.antt =====
-- The frame that task B first runs on in the SVC example.
use minimum_tests.Base.{
  ℕ, ◌+◌, ◌*◌, ◌^◌, ◌≤◌, ◌<◌, ◌≡◌, ◌≢◌, ◌⊎◌, refl, arith, for_loop, for_loop_rule,
}
use minimum_tests.Switch.{Program, SvcTasks, svc_dispatch, task_b_top, set_word}

module _ (program : Program) (t : SvcTasks) (current_frame : ℕ) where
  abbrev frame : ℕ
  frame = task_b_top program

  -- The first `n` words are zero, and no word elsewhere has changed.
  record IsCleared (n : ℕ) (words : ℕ → ℕ) : Type 0 where
    zeros : (k : ℕ) → k < n → words (frame + k * 4) ≡ 0
    others : (a : ℕ) → (a < frame) ⊎ (frame + 88 ≤ a) → words a ≡ t.words a

  abbrev cleared : ℕ → ℕ
  cleared = for_loop (λ index. set_word frame index 0) 22 0 t.words

  -- The words of task B's first frame, at the top of its stack.
  pub record IsFresh (words : ℕ → ℕ) : Type 0 where
    pub return_lr : words (frame + 52) ≡ program.task_b
    pub spsr : words (frame + 56) ≡ t.words (current_frame + 56)
    pub exception_id : words (frame + 60) ≡ 0xfffffffd
    pub zeros : (k : ℕ) → k < 22 → k ≢ 13 → k ≢ 14 → k ≢ 15 → words (frame + k * 4) ≡ 0
    pub others : (a : ℕ) → (a < frame) ⊎ (frame + 88 ≤ a) → words a ≡ t.words a

  module _ (fits : program.task_b_area + 1024 ≤ 2 ^ 32) where
    top : frame ≡ program.task_b_area + 936
    top = omega arith

    cleared-IsCleared : IsCleared 22 cleared
    cleared-IsCleared =
        for_loop_rule (λ index. set_word frame index 0) IsCleared 22 0 22 (omega arith)
          (λ i w lt c. record {
            zeros = λ k lk. ground (arith, c.zeros k, top);
            others = λ a off. ground (arith, c.others a, top);
          })
          (record { zeros = λ k lk. absurd (omega arith); others = λ a off. refl })

    -- If task B has no frame yet, its stack does not wrap around and the interrupted frame lies
    -- beside it, the call of the dispatcher records the interrupted frame as task A's and returns a
    -- frame at the top of task B's stack that starts task B: its code as the return address, the
    -- interrupted program status, the exception's number, and zero in every other word. It writes
    -- no other word of memory.
    pub svc_dispatch-IsFresh :
        t.task_b_frame ≡ 0
        → (current_frame + 60 ≤ program.task_b_area) ⊎ (program.task_b_area + 1024 ≤ current_frame)
        → current_frame + 60 ≤ 2 ^ 32
        → let (returned, after) = svc_dispatch program current_frame t in
          (returned ≡ frame)
          × (after.task_a_frame ≡ current_frame)
          × (after.task_b_frame ≡ frame)
          × IsFresh after.words
    unfolding svc_dispatch
    svc_dispatch-IsFresh first apart whole = rw first (
      refl,
      refl,
      refl,
      record {
        return_lr = ground (arith, top);
        spsr = ground (arith, top, c.others (current_frame + 56));
        exception_id = ground (arith, top);
        zeros = λ k lk n13 n14 n15. ground (arith, top, c.zeros k lk);
        others = λ a off. ground (arith, top, c.others a off);
      },
    )
      where
        c : IsCleared 22 cleared
        c = cleared-IsCleared
