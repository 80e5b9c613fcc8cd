-- ===== src/Examples/Typing.antt =====
-- The input buffer with "ab" at its end, so that the next characters go to its start.
use junior_os.Base.{◌≡◌, refl, [], ◌∷◌, ◌++◌, ◌==◌, if◌then◌else◌, arith}
use junior_os.Console.{Cons, cons_getc}
use junior_os.Console.Queue.{IsQueue, kept, first_of, rest_of, cons_getc-IsQueue}

abbrev typed : Cons
typed = record {
  buf = λ i. if i == 510 then 97 else if i == 511 then 98 else 0;
  rpos = 510;
  wpos = 0;
}

typed-IsQueue : IsQueue typed (97 ∷ 98 ∷ [])
typed-IsQueue = record {
  start = omega arith;
  room = omega arith;
  end = refl;
  chars = (refl, (refl, tt));
}

cons_getc-IsQueue_example :
    ((cons_getc (99 ∷ []) (0 ∷ 100 ∷ []) typed).0
      ≡ first_of (97 ∷ 98 ∷ [] ++ kept (99 ∷ []) ++ kept (0 ∷ 100 ∷ [])))
    × IsQueue
        (cons_getc (99 ∷ []) (0 ∷ 100 ∷ []) typed).1
        (rest_of (97 ∷ 98 ∷ [] ++ kept (99 ∷ []) ++ kept (0 ∷ 100 ∷ [])))
unfolding kept
cons_getc-IsQueue_example =
    cons_getc-IsQueue typed (97 ∷ 98 ∷ []) (99 ∷ []) (0 ∷ 100 ∷ []) typed-IsQueue (omega arith)
