-- ===== src/Messages/Queue/Examples.antt =====
-- Runs of `MessageQueue`.
use net_conduit.Base.Int.{pos, negsuc}
use net_conduit.Base.{some, none, true, ℕ, ◌≡◌, refl, ◌≢◌, false, List, [], ◌∷◌, ◌++◌}
use net_conduit.Messages.Queue.{MessageQueue}
use net_conduit.Messages.Queue.Priority.{new_priority_queue, put, get, take_least}
use net_conduit.Messages.Queue.ByPriority
use net_conduit.Messages.Queue.ByPriority.{Call, results, promised, results-promised}
use net_conduit.Messages.Queue.Fifo.{
  Op, offer, put_call, put_woken, get_call, get_woken, take, done, stop, go, wipe, run, inputs,
  outputs, apply, run-fifo,
}

abbrev two : MessageQueue ℕ
two = record {
  items = 5 ∷ 6 ∷ [];
  unfinished = 2;
  maxsize = 2;
  total_enqueued = 2;
  total_dequeued = 0;
  is_paused = false;
}

abbrev one : MessageQueue ℕ
one = record two { items = 6 ∷ []; total_dequeued = 1 }

abbrev script : List (Op ℕ)
script =
    offer 7
    ∷ put_call 7 false
    ∷ put_call 12 true
    ∷ put_woken 7
    ∷ get_call true
    ∷ put_woken 7
    ∷ stop
    ∷ offer 9
    ∷ go
    ∷ done
    ∷ take
    ∷ take
    ∷ get_call true
    ∷ get_call false
    ∷ offer 8
    ∷ get_woken
    ∷ offer 10
    ∷ wipe
    ∷ offer 11
    ∷ []

script-outputs : outputs script two ≡ 5 ∷ 6 ∷ 7 ∷ 8 ∷ 10 ∷ []
unfolding outputs apply
script-outputs = refl

run-fifo_example : two.items ++ inputs script two ≡ outputs script two ++ (run script two).items
run-fifo_example = run-fifo script two

two_nonempty : two.items ≢ []
two_nonempty e = cc

-- Two puts of priority 1, one of -1 between them, and one that finds the queue full.
abbrev mixed : List (Call ℕ)
mixed =
    ByPriority.offer 10 (pos 1)
    ∷ ByPriority.offer 20 (negsuc 0)
    ∷ ByPriority.offer 30 (pos 1)
    ∷ ByPriority.offer 40 (negsuc 5)
    ∷ ByPriority.take
    ∷ ByPriority.take
    ∷ ByPriority.offer 50 (pos 0)
    ∷ ByPriority.take
    ∷ ByPriority.take
    ∷ ByPriority.take
    ∷ []

mixed-results :
    results mixed (new_priority_queue 3) ≡ some 20 ∷ some 10 ∷ some 50 ∷ some 30 ∷ none ∷ []
unfolding results put get new_priority_queue take_least
mixed-results = refl

results-promised_example : results mixed (new_priority_queue 3) ≡ promised 3 mixed []
results-promised_example = results-promised mixed 3
