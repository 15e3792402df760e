-- ===== src/Tools/Notifications.antt =====
-- internal/tools/notifications.go: the notifications of the user.
use Prim.Native.String.{◌++◌}
use ocis_mcp_server.Base.{ℕ, String, Bool, List, length, leb, if◌then◌else◌, Result}
use ocis_mcp_server.Base.Ints.{ℤ, decimal}
use ocis_mcp_server.Client.{Network, Client, Context, Net, and_then, check, done, fail, validate_id}
use ocis_mcp_server.Client.ClientError.{failure}
use ocis_mcp_server.Client.Escape.{path_escape}
use ocis_mcp_server.Client.Graph.{Decoder, decoded, delete, get_raw}
use ocis_mcp_server.Tools.{DeleteOutput, success, require_confirm}

pub record Notification : Type 0 where
  pub id : ℤ
  pub date_time : String
  pub subject : String
  pub message : String
  pub object_type : String
  pub object_id : String

-- `ocs.data` of the envelope
pub record OcsNotificationsResponse : Type 0 where
  pub notifications : List Notification

pub record ListNotificationsOutput : Type 0 where
  pub notifications : List Notification
  pub total_count : ℕ

pub record DeleteNotificationInput : Type 0 where
  pub notification_id : String
  pub confirm : Bool

-- What a handler makes of bytes that it fetched itself: an error from 400 on, else the decoded value.
unfoldable pub from_raw {ℓ} : {A : Type ℓ} → String → String → Result String A → ℕ → Net A
unfolding decoded
from_raw api what r status =
    if leb 400 status
    then fail (failure (api ++ (" API returned status " ++ decimal status)))
    else decoded what r

unfoldable pub notifications_output : OcsNotificationsResponse → ListNotificationsOutput
notifications_output resp = record {
  notifications = resp.notifications;
  total_count = length resp.notifications;
}

abbrev pub notifications_path : String
notifications_path = "/ocs/v2.php/apps/notifications/api/v1/notifications"

module _ ⦃n : Network⦄ (c : Client) (ctx : Context) where
  unfoldable pub handle_list_notifications :
      ⦃d : Decoder OcsNotificationsResponse⦄ → Net ListNotificationsOutput
  unfolding from_raw notifications_output
  handle_list_notifications ⦃d⦄ = and_then (get_raw c ctx notifications_path) λ raw.
      and_then (from_raw "notifications" "decoding notifications response" (d.decode raw.0) raw.1)
        λ resp. done (notifications_output resp)

  unfoldable pub handle_delete_notification : DeleteNotificationInput → Net DeleteOutput
  handle_delete_notification input = check (require_confirm input.confirm) (
      check (validate_id "notification_id" input.notification_id) (
        and_then (delete c ctx (notifications_path ++ ("/" ++ path_escape input.notification_id)))
          λ _. done (success "notification deleted")))
