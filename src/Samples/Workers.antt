-- ===== src/Samples/Workers.antt =====
-- The theorems on the queues and workers of the controller, at one job.
use pinta_scheduler.Prelude.{refl, [], ◌∷◌, arith}
use pinta_scheduler.Samples.{amounts}
use pinta_scheduler.Samples.Jobs.{server, no_requests, train_request, busy}
use pinta_scheduler.Controller.Manager.Calls.{handle_events}
use pinta_scheduler.Controller.Manager.Retries.{requeues, IsBounded, handle_events-IsBounded}
use pinta_scheduler.Controller.Manager.Worker.{worker, Worked, finished, worker_lem}

none_requeued : IsBounded no_requests.queues
unfolding IsBounded
none_requeued w req = omega arith

handle_events-IsBounded_example :
    IsBounded (handle_events (λ k. 4) 3 amounts server 9 requeues busy no_requests).queues
handle_events-IsBounded_example =
    handle_events-IsBounded (λ k. 4) 3 amounts server 9 requeues (λ calls w req. refl) busy
      no_requests none_requeued

worker_lem_example :
    Worked
      (λ k. 4)
      3
      amounts
      server
      9
      requeues
      1
      (train_request ∷ train_request ∷ [])
      (finished no_requests.queues)
      (worker
        (λ k. 4)
        3
        amounts
        server
        9
        requeues
        1
        (train_request ∷ train_request ∷ [])
        no_requests)
worker_lem_example =
    worker_lem (λ k. 4) 3 amounts server 9 requeues 1 (train_request ∷ train_request ∷ [])
      no_requests
