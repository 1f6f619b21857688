-- ===== src/Saga/Client.antt =====
-- `HttpItemRecoveryClient` of recovery-case-service/app/services/item_service_client.py, with the
-- endpoints of item-service/app/api/internal_recovery.py behind it.
use trabalho_devops.Prelude.{ℕ, ◌+◌, String}
use trabalho_devops.Exec.{Exec, Result, ok, err}
use trabalho_devops.Store.{Session, in_session}
use trabalho_devops.Messaging.{Settings}
use trabalho_devops.Item.Models.{ItemDb, ItemStatus}
use trabalho_devops.Item.Models as Item
use trabalho_devops.Item.Api.{
  RecoveryOperationResponse, Handler, open_recovery_endpoint, cancel_recovery_endpoint,
  complete_recovery_endpoint,
}
use trabalho_devops.Recovery.Models.{
  TargetStatus, available, matched, ItemRecoveryOpenRequest, ItemRecoveryCancelRequest,
  ItemRecoveryCompleteRequest, ItemRecoveryClient,
}

-- What becomes of a call on the network: it is answered, it does not reach item-service, or its
-- answer does not come back.
pub data Fate : Type 0 where
  answered unreachable unanswered : Fate

-- item-service, with the fates of the calls and the texts of the exceptions that they end in.
pub record Link : Type 0 where
  pub items : Session ItemDb
  pub fates : ℕ → Fate
  pub texts : ℕ → String
  pub calls : ℕ

-- The link after a call.
abbrev pub after_call : Session ItemDb → Link → Link
after_call s w = record w { items = s; calls = w.calls + 1 }

module _ {A : Type 0} where
  -- item-service answers a success with its own response model, so that reading the body does not fail
  -- here. `raise_for_status`: an answer with an error status is raised too.
  abbrev pub response_of : String → Result ℕ A → Result String A
  response_of text (ok a) = ok a
  response_of text (err status) = err text

  abbrev pub post_by : Fate → Result ℕ A × Session ItemDb → Exec String Link A
  post_by answered (r, s) w = (response_of (w.texts w.calls) r, after_call s w)
  post_by unreachable (r, s) w = (err (w.texts w.calls), after_call w.items w)
  post_by unanswered (r, s) w = (err (w.texts w.calls), after_call s w)

  -- `_post`: the endpoint is run in a session of its own.
  unfoldable pub post : Handler A → Exec String Link A
  post endpoint w = post_by (w.fates w.calls) (in_session endpoint w.items) w

abbrev pub target_of : TargetStatus → ItemStatus
target_of available = Item.ItemStatus.available
target_of matched = Item.ItemStatus.matched

-- The bodies have the same fields on both sides, and the same constraints.
unfoldable pub http_client : Settings → ItemRecoveryClient RecoveryOperationResponse Link
unfolding post
http_client settings = record {
  open_recovery = λ (payload : ItemRecoveryOpenRequest). post (
      open_recovery_endpoint settings (record {
        item_ids = payload.item_ids;
        actor_user_id = payload.actor_user_id;
        reason = payload.reason;
      }));
  cancel_recovery = λ (payload : ItemRecoveryCancelRequest). post (
      cancel_recovery_endpoint settings (record {
        item_ids = payload.item_ids;
        actor_user_id = payload.actor_user_id;
        reason = payload.reason;
        target_status = target_of payload.target_status;
      }));
  complete_recovery = λ (payload : ItemRecoveryCompleteRequest). post (
      complete_recovery_endpoint settings (record {
        item_ids = payload.item_ids;
        actor_user_id = payload.actor_user_id;
        reason = payload.reason;
      }));
}
