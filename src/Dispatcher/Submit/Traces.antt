-- ===== src/Dispatcher/Submit/Traces.antt =====
-- The log of a run from the entry's routing on.
use fatty_multi_exchange_tra.Prelude.{String, ◌≡◌, Option, none, some, ◌∷◌, arith}
use fatty_multi_exchange_tra.Prelude.Raise.{Result, ok, err}
use fatty_multi_exchange_tra.Decimal.{Decimal}
use fatty_multi_exchange_tra.Domain.{
  Direction, DispatchState, preflight, sized, validated, submitting,
}
use fatty_multi_exchange_tra.Risk.EntryRoute.{EntryRoute}
use fatty_multi_exchange_tra.Dispatcher.Effects.{
  BitgetDispatch, EntryRoutingSnapshot, Submission, Order, Status, Reason, Outcome, Log, Execution,
  Environment, moved, submitted, state_of, submissions,
}
use fatty_multi_exchange_tra.Dispatcher.Submit.{
  refuse, release_call, release_admission, finish, answered, post, submit, order_of, reserve,
  give_back, canary_stage, execution_stage, validation_stage, route_of, routed_stage, routing_stage,
}
use fatty_multi_exchange_tra.Dispatcher.Traces.{IsTrace, Reports, IsReported, IsBefore, IsRefusal}

pub refuse_trace :
    (env : Environment) (s : DispatchState) (reason : Reason) (o : Outcome) (log : Log)
    → IsBefore s log
    → IsRefusal o
    → IsReported (refuse env s reason o log)
unfolding refuse
refuse_trace env s reason o log before refusal = ground arith

finish_trace :
    (env : Environment) (t : DispatchState) (reason : Option Reason) (o : Outcome) (log : Log)
    → IsTrace log
    → state_of log ≡ submitting
    → Reports (ok o) t (submissions log)
    → IsReported (finish env t reason o log)
unfolding finish
finish_trace env t reason o log trace at reports = ground arith

pub answered_trace :
    (env : Environment) (r : Result Status) (log : Log)
    → IsTrace log
    → state_of log ≡ submitting
    → submissions log ≡ 1
    → IsReported (answered env r log)
unfolding answered finish
answered_trace env r log trace at once = ground arith

pub post_trace :
    (env : Environment) (x : Execution) (order : Order) (log : Log)
    → IsBefore submitting log
    → IsReported (post env x order log)
unfolding post
post_trace env x order log before =
    ground (arith, answered_trace env (x.submit order log) (submitted order ∷ log))

pub submit_trace :
    (env : Environment) (x : Execution) (order : Order) (log : Log)
    → IsBefore validated log
    → IsReported (submit env x order log)
unfolding submit
submit_trace env x order log before =
    ground (arith, post_trace env x order (moved validated submitting none ∷ log))

release_admission_trace :
    (env : Environment) (x : Option Execution) (s : Option Submission) (at : DispatchState)
    (log : Log)
    → IsBefore at log
    → IsBefore at (release_admission env x s log).1
unfolding release_admission release_call
release_admission_trace env x s at log before = ground arith

give_back_trace :
    (env : Environment) (s : Option Submission) (at : DispatchState) (reason : Reason) (log : Log)
    → IsBefore at log
    → IsReported (give_back env s at reason log)
unfolding give_back
give_back_trace env s at reason log before = ground (
  arith,
  release_admission_trace env env.execution s at log before,
  refuse_trace env at reason Outcome.rejected (release_admission env env.execution s log).1,
)

reserve_trace :
    (env : Environment) (at : DispatchState) (log : Log)
    → IsBefore at log
    → IsBefore at (reserve env log).1
unfolding reserve
reserve_trace env at log before = ground arith

canary_stage_trace :
    (env : Environment) (x : Execution) (q : Decimal) (s : Option Submission)
    (r : Option EntryRoute) (log : Log)
    → IsBefore validated log
    → IsReported (canary_stage env x q s r log)
unfolding canary_stage
canary_stage_trace env x q s r log before =
    let after = (reserve env log).1 in
    ground (
      arith,
      reserve_trace env validated log before,
      submit_trace env x (order_of q s r) log before,
      submit_trace env x (order_of q s r) after,
      give_back_trace env s validated Reason.canary_order_cap_reached after,
    )

execution_stage_trace :
    (env : Environment) (x : Option Execution) (q : Decimal) (s : Option Submission)
    (r : Option EntryRoute) (log : Log)
    → IsBefore validated log
    → IsReported (execution_stage env x q s r log)
unfolding execution_stage
execution_stage_trace env none q s r log before =
    give_back_trace env s validated Reason.missing_execution_client log before
execution_stage_trace env (some x) q s r log before = ground (
  arith,
  give_back_trace env s validated Reason.entry_routing_unsupported log before,
  canary_stage_trace env x q s r log before,
)

validation_stage_trace :
    (env : Environment) (q : Decimal) (s : Option Submission) (r : Option EntryRoute) (log : Log)
    → IsBefore preflight log
    → IsReported (validation_stage env q s r log)
unfolding validation_stage
validation_stage_trace env q s r log before = ground (
  arith,
  execution_stage_trace env env.execution q s r
      (moved sized validated none ∷ moved preflight sized none ∷ log),
)

routed_stage_trace :
    (env : Environment) (q : Decimal) (s : Option Submission) (r : Result EntryRoute) (log : Log)
    → IsBefore preflight log
    → IsReported (routed_stage env q s r log)
unfolding routed_stage
routed_stage_trace env q s (err e) log before =
    give_back_trace env s preflight (Reason.entry_routing_error e) log before
routed_stage_trace env q s (ok r) log before = validation_stage_trace env q s (some r) log before

pub routing_stage_trace :
    (env : Environment) (d : BitgetDispatch) (direction : Direction) (q : Decimal)
    (s : Option Submission) (routing : Option (String → Result EntryRoutingSnapshot)) (log : Log)
    → IsBefore preflight log
    → IsReported (routing_stage env d direction q s routing log)
unfolding routing_stage
routing_stage_trace env d direction q s none log before =
    validation_stage_trace env q s none log before
routing_stage_trace env d direction q s (some f) log before =
    routed_stage_trace env q s (route_of env d direction q (f d.pair_token)) log before
