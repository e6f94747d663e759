-- ===== src/Router/Worker.antt =====
-- pkg/router/trigger.go: the goroutine that works on the objects that wait for the triggers.
use nah.Prelude.{List, [], ◌∷◌, Bool, true}
use nah.Kube.{Object}
use nah.Router.Triggers.{Matchers, Pending, EnqueueTarget, process}

-- toTrigger, triggerRunning and the matchers.
pub record TriggerState : Type 0 where
  pub to_trigger : Pending
  pub trigger_running : Bool
  pub matchers : Matchers

-- kick: the worker is started, or woken
unfoldable pub kick : TriggerState → TriggerState
kick s = record s { trigger_running = true }

module _ (is_fields : Object → Bool) where
  abbrev pub worked : TriggerState → Pending → List EnqueueTarget × TriggerState
  worked s [] = ([], s)
  worked s (p ∷ ps) =
      let (targets, ms) = process is_fields (p ∷ ps) s.matchers in
      (targets, record s { to_trigger = []; matchers = ms })

  -- One round of the worker: it waits while there is nothing to do, and otherwise takes all that
  -- waits and processes that. It returns what process enqueued, and in what order.
  unfoldable pub work : TriggerState → List EnqueueTarget × TriggerState
  unfolding process
  work s = worked s s.to_trigger
