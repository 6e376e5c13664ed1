-- ===== src/Pipeline/Parallel/Steady.antt =====
-- Runs of a parallel segment of include/pipeline.h keep what its copies have seen and what it holds.
use google_concurrency_libra.Base.{
  Bool, ℕ, ◌+◌, ◌≡◌, ◌≢◌, refl, true, false, List, [], ◌∷◌, ◌++◌, arith, subst, sym,
}
use google_concurrency_libra.Pipeline.Parallel.{
  Copy, Parallel, Turn, pops, pushes, finds_closed, closes, Moves, first, further, Step, feeds,
  feed_ends, moves, reads, gives, leaves_queue, finishes, Run, here, later,
}
use google_concurrency_libra.Pipeline.Parallel.Kept.{
  Settled, AllSettled, Inv, weight, work, Step-weight, Step-work,
}

module _ {A : Type 0} (func : A → List A) (cap : ℕ) where
  -- No copy that has left its loop can see an element again.
  Turn-Settled :
      {b : Bool} {q q' : List A} {c c' : Copy A}
      → Turn func cap q b c q' c'
      → Settled q b c
      → Settled q' b c'
  unfolding Settled
  Turn-Settled (pops x rest p e f) settled = λ out. absurd (out p)
  Turn-Settled (pushes y rest e h) settled = λ out. ground (arith, settled out)
  Turn-Settled (finds_closed p e f g) settled = λ out. (e, f, g)
  Turn-Settled (closes p) settled = λ out. ground arith

  Turn-others :
      {b : Bool} {q q' : List A} {c c' : Copy A} (cs : List (Copy A))
      → Turn func cap q b c q' c'
      → AllSettled q b cs
      → AllSettled q' b cs
  unfolding AllSettled Settled
  Turn-others [] t settled = tt
  Turn-others {c = c} (d ∷ cs) (pops x rest p e f) (settled, others) =
      (λ out. ground (arith, settled out), Turn-others {c = c} cs (pops x rest p e f) others)
  Turn-others (d ∷ cs) (pushes y rest e h) settled = settled
  Turn-others (d ∷ cs) (finds_closed p e f g) settled = settled
  Turn-others (d ∷ cs) (closes p) settled = settled

  Moves-other :
      {b : Bool} {q q' : List A} {cs cs' : List (Copy A)} (d : Copy A)
      → Moves func cap q b cs q' cs'
      → Settled q b d
      → Settled q' b d
  unfolding AllSettled
  Moves-other d (first t) settled = (Turn-others (d ∷ []) t (settled, tt)).0
  Moves-other d (further m) settled = Moves-other d m settled

  Moves-AllSettled :
      {b : Bool} {q q' : List A} {cs cs' : List (Copy A)}
      → Moves func cap q b cs q' cs'
      → AllSettled q b cs
      → AllSettled q' b cs'
  unfolding AllSettled
  Moves-AllSettled (first {cs = cs} t) (settled, others) =
      (Turn-Settled t settled, Turn-others cs t others)
  Moves-AllSettled (further {c = c} m) (settled, others) =
      (Moves-other c m settled, Moves-AllSettled m others)

  Moves-some :
      {b : Bool} {q q' : List A} {cs cs' : List (Copy A)} → Moves func cap q b cs q' cs' → cs' ≢ []
  Moves-some (first t) = ground arith
  Moves-some (further m) = ground arith

  Moves-nonempty :
      {b : Bool} {q q' : List A} {cs cs' : List (Copy A)} → Moves func cap q b cs q' cs' → cs ≢ []
  Moves-nonempty (first t) = ground arith
  Moves-nonempty (further m) = ground arith

  -- The end of the input closes the queue of a copy that is still in its loop.
  closed-AllSettled :
      (q : List A) (cs : List (Copy A)) → AllSettled q false cs → AllSettled q true cs
  unfolding AllSettled Settled
  closed-AllSettled q [] settled = tt
  closed-AllSettled q (c ∷ cs) (settled, others) =
      (λ out. ground (arith, settled out), closed-AllSettled q cs others)

  fed-AllSettled :
      (q r : List A) (cs : List (Copy A)) → AllSettled q false cs → AllSettled r false cs
  unfolding AllSettled Settled
  fed-AllSettled q r [] settled = tt
  fed-AllSettled q r (c ∷ cs) (settled, others) =
      (λ out. ground (arith, settled out), fed-AllSettled q r cs others)

  Step-Inv : {s t : Parallel A} → Step func cap s t → Inv s → Inv t
  unfolding AllSettled Settled
  Step-Inv {s} (feeds y rest e h) v =
      let open_q : s.in_shut ≡ false = ground (arith, v.all_came) in
      record {
        settled =
            subst (λ b. AllSettled (s.in_queue ++ (y ∷ [])) b s.copies) (sym open_q)
              (fed-AllSettled s.in_queue (s.in_queue ++ (y ∷ [])) s.copies
                (subst (λ b. AllSettled s.in_queue b s.copies) open_q v.settled));
        all_came = λ c. ground arith;
        drained = λ c. ground (arith, v.drained c);
        at_end = v.at_end;
      }
  Step-Inv {s} (feed_ends e b) v = record {
    settled =
        closed-AllSettled s.in_queue s.copies
          (subst (λ b. AllSettled s.in_queue b s.copies) b v.settled);
    all_came = λ c. e;
    drained = v.drained;
    at_end = v.at_end;
  }
  Step-Inv (moves m) v = record {
    settled = Moves-AllSettled m v.settled;
    all_came = v.all_came;
    drained = λ e. absurd (Moves-some m e);
    at_end = λ e. absurd (Moves-nonempty m (v.at_end e).0);
  }
  Step-Inv {s} (reads c cs x rest e n f) v = record {
    settled = subst (AllSettled s.in_queue s.in_shut) e v.settled;
    all_came = v.all_came;
    drained = λ g. ground arith;
    at_end = λ g. ground (arith, v.at_end g);
  }
  Step-Inv {s} (gives x e) v = record {
    settled = v.settled;
    all_came = v.all_came;
    drained = v.drained;
    at_end = λ g. ground (arith, v.at_end g);
  }
  Step-Inv {s} (leaves_queue c cs e n f p) v =
      let (head, rest) : AllSettled s.in_queue s.in_shut (c ∷ cs) =
        subst (AllSettled s.in_queue s.in_shut) e v.settled in
      record {
        settled = rest;
        all_came = v.all_came;
        drained = λ g. ground (arith, head, v.all_came);
        at_end = λ g. ground (arith, v.at_end g);
      }
  Step-Inv (finishes e n f) v = record {
    settled = v.settled;
    all_came = v.all_came;
    drained = v.drained;
    at_end = λ g. (e, n);
  }

  pub Run-Inv : {s t : Parallel A} {n : ℕ} → Run func cap s n t → Inv s → Inv t
  Run-Inv here v = v
  Run-Inv (later r st) v = Step-Inv st (Run-Inv r v)

  pub Run-work :
      {s t : Parallel A} {n : ℕ} → Run func cap s n t → Inv s → n + work func t ≡ work func s
  Run-work here v = omega arith
  Run-work (later r st) v = omega (arith, Run-work r v, Step-work func cap st (Run-Inv r v))

  pub Run-weight :
      {s t : Parallel A} {n : ℕ} (w : A → ℕ)
      → Run func cap s n t
      → Inv s
      → weight func w t ≡ weight func w s
  Run-weight w here v = refl
  Run-weight w (later r st) v =
      omega (arith, Run-weight w r v, Step-weight func cap w st (Run-Inv r v))
