-- ===== src/Queue/Tests.antt =====
-- Runs of the queue of producer-consumer/producer-consumer.c.
use project_so.Queue.Threads.{
  pusher, outside, working, Threads, entered, left, set_position, calls, goes_on, pushes, Run, ends,
  step_then,
}
use project_so.Queue.ThreadRuns.{Safe, Run-Safe, Replays, events, threads_refine}
use project_so.Prelude.{ℕ, ◌≡◌, refl, arith, none, some, List, [], ◌∷◌, ◌==◌, if◌then◌else◌}
use project_so.Queue.Defs.{PcQueue, write_slot, pcq_create, pcq_enqueue, pcq_dequeue, shift}
use project_so.Queue.Fifo.{
  IsValid, contents, push, pop, seen, enqueue_refines, dequeue_refines, enqueue_in_range,
}
use project_so.Queue.Runs.{Call, enqueue, dequeue, run, run_list, run_refines, pcq_create-run}
use mathlib.Core.Option

abbrev unused : PcQueue ℕ
unused = record {
  pcq_buffer = λ _. 0;
  pcq_capacity = 0;
  pcq_current_size = 0;
  pcq_head = 0;
  pcq_tail = 0;
}

-- Room for three, with 5 and, after it, 6.
abbrev two_tasks : PcQueue ℕ
two_tasks = record {
  pcq_buffer = λ i. if i == 0 then 6 else if i == 1 then 5 else 9;
  pcq_capacity = 3;
  pcq_current_size = 2;
  pcq_head = 0;
  pcq_tail = 1;
}

two_tasks-IsValid : IsValid two_tasks
two_tasks-IsValid = record {
  bounded = omega arith;
  empty_tail = λ e. absurd (omega arith);
  full_tail = λ _. refl;
  room = omega arith;
}

abbrev six_calls : List (Call ℕ)
six_calls = enqueue 7 ∷ enqueue 8 ∷ dequeue ∷ dequeue ∷ dequeue ∷ dequeue ∷ []

-- The fourth element finds no room, the fourth `dequeue` nothing to take.
calls_out : run two_tasks six_calls ≡ some 5 ∷ some 6 ∷ some 7 ∷ none ∷ []
unfolding run pcq_enqueue pcq_dequeue shift
calls_out = refl

enqueue_refines_example :
    Option.map contents (pcq_enqueue two_tasks 7) ≡ push 3 (contents two_tasks) 7
enqueue_refines_example = enqueue_refines {q = two_tasks} 7 two_tasks-IsValid

dequeue_refines_example : Option.map seen (pcq_dequeue two_tasks) ≡ pop (contents two_tasks)
dequeue_refines_example = dequeue_refines {q = two_tasks} two_tasks-IsValid

run_refines_example : run two_tasks six_calls ≡ run_list 3 (contents two_tasks) six_calls
run_refines_example = run_refines six_calls {q = two_tasks} two_tasks-IsValid

pcq_create-run_example : run (pcq_create (λ _. 0) unused 3) six_calls ≡ run_list 3 [] six_calls
pcq_create-run_example = pcq_create-run (λ _. 0) unused 3 six_calls refl refl refl

enqueue_in_range_example :
    (record two_tasks {
      pcq_buffer = write_slot (shift two_tasks.pcq_buffer 0 2) 0 7;
      pcq_tail = 2;
      pcq_current_size = 3;
    }).pcq_buffer
      6
    ≡ 9
unfolding pcq_enqueue
enqueue_in_range_example =
    enqueue_in_range {q = two_tasks}
      {r = record two_tasks {
        pcq_buffer = write_slot (shift two_tasks.pcq_buffer 0 2) 0 7;
        pcq_tail = 2;
        pcq_current_size = 3;
      }}
      7 6 two_tasks-IsValid refl (omega arith)

abbrev idle_threads : Threads ℕ
idle_threads = record { queue = two_tasks; lock = λ side. none; position = λ side i. outside }

abbrev three_tasks : PcQueue ℕ
three_tasks = record two_tasks {
  pcq_buffer = write_slot (shift two_tasks.pcq_buffer 0 2) 0 7;
  pcq_current_size = 3;
  pcq_tail = 2;
}

-- Thread 4 is past the loop of pcq_enqueue.
abbrev one_inside : Threads ℕ
one_inside =
    let s = entered idle_threads pusher 4 in
    record s { position = set_position s.position pusher 4 working }

-- It pushes 7.
one_push : Run idle_threads (left one_inside pusher 4 outside three_tasks)
unfolding pcq_enqueue
one_push =
    step_then (calls pusher 4 refl refl)
      (step_then (goes_on pusher 4 refl refl) (step_then (pushes 4 7 three_tasks refl refl) ends))

Run-Safe_example : Safe (left one_inside pusher 4 outside three_tasks)
Run-Safe_example =
    Run-Safe idle_threads (left one_inside pusher 4 outside three_tasks) two_tasks-IsValid
      (λ side i. refl) one_push

threads_refine_example : Replays 3 (contents two_tasks) (events one_push) (contents three_tasks)
threads_refine_example =
    threads_refine idle_threads (left one_inside pusher 4 outside three_tasks) two_tasks-IsValid
      (λ side i. refl) one_push
