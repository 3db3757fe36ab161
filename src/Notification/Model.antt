-- ===== src/Notification/Model.antt =====
-- models.py of notification, and what delivery.py passes around.
use Prim.Native.String.{String}
use seqret_be.Prelude.{ℕ, Bool, true, false, Option, List}
use seqret_be.Prelude.Clock.{Uuid, Instant}
use seqret_be.Contracts.Events.{
  DomainEventType, capture_submitted, analysis_completed, analysis_failed, scope_locked,
  change_requested, dispatch_confirmed, completion_media_submitted, completion_submitted,
  completion_requested, completion_decided, media_deleted,
}

-- `class NotificationStatus`
pub data NotificationStatus : Type 0 where
  pending sent failed : NotificationStatus

abbrev pub is_pending : NotificationStatus → Bool
is_pending pending = true
is_pending _ = false

abbrev pub is_sent : NotificationStatus → Bool
is_sent sent = true
is_sent _ = false

abbrev pub is_failed : NotificationStatus → Bool
is_failed failed = true
is_failed _ = false

-- `class NotificationChannel`
pub data NotificationChannel : Type 0 where
  in_app email sms kakao : NotificationChannel

abbrev pub is_in_app : NotificationChannel → Bool
is_in_app in_app = true
is_in_app _ = false

-- `class NotificationDelivery`
pub record NotificationDelivery : Type 0 where
  pub id : Uuid
  pub event_id : Uuid
  pub event_type : DomainEventType
  pub job_id : Uuid
  pub recipient_participant_id : Uuid
  pub channel : NotificationChannel
  pub destination : Option String
  pub status : NotificationStatus
  pub attempt_count : ℕ
  pub created_at : Instant
  pub last_attempt_at : Option Instant
  pub sent_at : Option Instant
  pub last_error_code : Option String
  pub next_attempt_at : Option Instant
  pub locked_until : Option Instant
  pub lock_token : Option Uuid
  pub provider_message_id : Option String

abbrev pub row_key : NotificationDelivery → ℕ
row_key r = r.id

-- The table, and how many lock tokens have been drawn.
pub record Deliveries : Type 0 where
  pub rows : List NotificationDelivery
  pub draws : ℕ

-- `class ExternalNotificationChannel`
pub data ExternalNotificationChannel : Type 0 where
  by_email by_sms by_kakao : ExternalNotificationChannel

-- `class OutboundNotification`
pub record OutboundNotification : Type 0 where
  pub notification_id : Uuid
  pub event_id : Uuid
  pub job_id : Uuid
  pub channel : ExternalNotificationChannel
  pub destination : String
  pub subject : String
  pub body : String
  pub deep_link : String

-- `class ClaimedNotification`
pub record ClaimedNotification : Type 0 where
  pub notification_id : Uuid
  pub lock_token : Uuid
  pub message : OutboundNotification

-- `EVENT_MESSAGE`
pub event_message : DomainEventType → String
event_message capture_submitted = "촬영 자료가 제출되었습니다."
event_message analysis_completed = "촬영 분석이 완료되었습니다."
event_message analysis_failed = "촬영 분석을 완료하지 못해 확인이 필요합니다."
event_message scope_locked = "고객과 업체가 작업범위를 함께 확인했습니다."
event_message change_requested = "현장 변경 요청이 등록되었습니다."
event_message dispatch_confirmed = "기사와 차량 배차가 확정되었습니다."
event_message completion_media_submitted = "완료 확인 자료가 등록되었습니다."
event_message completion_submitted = "현장 작업 완료 내용이 제출되었습니다."
event_message completion_requested = "작업 완료 확인 요청이 도착했습니다."
event_message completion_decided = "작업 완료 확인 결과가 등록되었습니다."
event_message media_deleted = "보존기간이 지난 미디어가 삭제되었습니다."
