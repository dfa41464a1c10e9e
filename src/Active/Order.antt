-- ===== src/Active/Order.antt =====
-- Every interleaving of threads that send with the thread that runs what was sent.
use myg3log.Base.{◌≡◌, refl, sym, ◌∙◌, ap, false, List, [], ◌∷◌, ◌++◌, some, append_assoc}
use myg3log.Active.{Active, Callback, create_active, send, perform}
use myg3log.Active.Queue.{push, wait_and_pop}

module _ {J S : Type 0} (exec : J → S → S) where
  -- What a sequence of callbacks does to the owner's state.
  abbrev pub effect : List (Callback J) → S → S
  effect [] s = s
  effect (Callback.call j ∷ cs) s = effect cs (exec j s)
  effect (Callback.set_done ∷ cs) s = effect cs s

  effect-append :
      (cs ds : List (Callback J)) (s : S) → effect (cs ++ ds) s ≡ effect ds (effect cs s)
  effect-append [] ds s = refl
  effect-append (Callback.call j ∷ cs) ds s = effect-append cs ds (exec j s)
  effect-append (Callback.set_done ∷ cs) ds s = effect-append cs ds s

  -- The states that are reached from a new worker, with what was sent to it, by any thread and in
  -- the order of the mutex, and what its thread has run.
  pub data History (s0 : S) : List (Callback J) → List (Callback J) → Active J × S → Type 0 where
    created : History s0 [] [] (create_active, s0)
    sends :
        {sent executed : List (Callback J)} {a : Active J} {s : S}
        → History s0 sent executed (a, s)
        → (c : Callback J) → History s0 (sent ++ c ∷ []) executed (send c a, s)
    runs :
        {sent executed : List (Callback J)} {a : Active J} {s : S}
        → History s0 sent executed (a, s)
        → a.done ≡ false
        → (c : Callback J) (rest : List (Callback J)) → wait_and_pop a.mq ≡ some (c, rest)
        → History s0 sent (executed ++ c ∷ []) (perform exec c (record a { mq = rest }, s))

  -- The states of the owner and of the queue after a callback.
  pub perform_parts :
      (c : Callback J) (a : Active J) (s : S)
      → ((perform exec c (a, s)).0.mq ≡ a.mq) × ((perform exec c (a, s)).1 ≡ effect (c ∷ []) s)
  unfolding perform
  perform_parts (Callback.call j) a s = (refl, refl)
  perform_parts Callback.set_done a s = (refl, refl)

  popped :
      (q : List (Callback J)) (c : Callback J) (rest : List (Callback J))
      → wait_and_pop q ≡ some (c, rest)
      → q ≡ c ∷ rest
  unfolding wait_and_pop
  popped [] c rest e = cc
  popped (d ∷ q) c rest e = cc

  -- In every interleaving what was sent is what was run and what still stands in the queue, in this
  -- order: nothing is lost, run twice or overtaken. The owner's state is what the callbacks that
  -- were run make of its first state.
  pub History-order :
      {s0 : S} {sent executed : List (Callback J)} {now : Active J × S}
      → History s0 sent executed now
      → (sent ≡ executed ++ now.0.mq) × (now.1 ≡ effect executed s0)
  unfolding create_active send push
  History-order created = (refl, refl)
  History-order (sends {executed = ex} {a} h c) =
      let (order, state) = History-order h in
      (ap (λ q. q ++ c ∷ []) order ∙ append_assoc ex a.mq (c ∷ []), state)
  History-order {s0} (runs {executed = ex} {a} {s} h live c rest e) =
      let (order, state) = History-order h in
      let (queue, after) = perform_parts c (record a { mq = rest }) s in
      (
        order
            ∙ ap (◌++◌ ex) (popped a.mq c rest e)
            ∙ sym (append_assoc ex (c ∷ []) rest)
            ∙ ap (◌++◌ (ex ++ c ∷ [])) (sym queue),
        after ∙ ap (effect (c ∷ [])) state ∙ sym (effect-append ex (c ∷ []) s0),
      )
