-- ===== src/HubClient/Calls.antt =====
-- The calls of `HTTPClient` in internal/hubclient/client.go. `encoding/json` is a parameter.
use bear_sync.Prelude.{
  ℕ, suc, String, not, ◌&&◌, Option, none, some, List, ltb, nat_eq, take, length, if◌then◌else◌,
}
use Prim.Native.String.{◌++◌ as ◌<>◌}
use bear_sync.Models.WriteQueue.{LeasedItem}
use bear_sync.Models.Sync.{SyncPushRequest, SyncAckItem}
use bear_sync.HubClient.Retry.{
  HubLink, HttpClient, HttpRequest, Response, Exchange, broken, responds, marshal_failed,
  bad_request, decode_failed, read_failed, answered_error, too_large, request_ended, Outcome,
  failed, returned, parse_error_response, do_with_retry,
}

-- `SyncStatus`
pub record HubStatus : Type 0 where
  pub last_sync_at : String
  pub last_push_at : String
  pub queue_size : ℕ
  pub initial_sync_complete : String

pub record Json : Type 0 where
  pub of_push : SyncPushRequest → Option (List ℕ)
  pub of_acks : List SyncAckItem → Option (List ℕ)
  pub items : Response → Option (List LeasedItem)
  pub status : Response → Option HubStatus

pub data Nothing : Type 0 where
  nothing : Nothing

abbrev pub max_download_size : ℕ
max_download_size = 10485760

module _ (L : HubLink) where
  -- What a call does with an answer: any status but 200 is an error.
  abbrev pub receive {ℓ} :
      {A : Type ℓ} → (Response → Outcome A) → L.State × Outcome Response → L.State × Outcome A
  receive read (s, failed e) = (s, failed e)
  receive read (s, returned r) = (
    s,
    if nat_eq r.status_code 200 then read r else failed (answered_error (parse_error_response L r)),
  )

  module _ (j : Json) (c : HttpClient) where
    abbrev pub post : String → Option (List ℕ) → L.State → L.State × Outcome Nothing
    post path none s = (s, failed marshal_failed)
    post path (some body) s =
        receive (λ r. returned nothing) (do_with_retry L c "POST" path (some body) s)

    unfoldable pub sync_push : SyncPushRequest → L.State → L.State × Outcome Nothing
    unfolding do_with_retry parse_error_response
    sync_push req s = post "/api/sync/push" (j.of_push req) s

    abbrev pub decoded {ℓ} : {A : Type ℓ} → Option A → Outcome A
    decoded none = failed decode_failed
    decoded (some a) = returned a

    unfoldable pub lease_queue : String → L.State → L.State × Outcome (List LeasedItem)
    unfolding do_with_retry parse_error_response
    lease_queue processing_by s =
        receive (λ r. decoded (j.items r))
          (do_with_retry L c "GET" ("/api/sync/queue?processing_by=" <> processing_by) none s)

    unfoldable pub ack_queue : List SyncAckItem → L.State → L.State × Outcome Nothing
    unfolding do_with_retry parse_error_response
    ack_queue items s = post "/api/sync/ack" (j.of_acks items) s

    unfoldable pub get_sync_status : L.State → L.State × Outcome HubStatus
    unfolding do_with_retry parse_error_response
    get_sync_status s =
        receive (λ r. decoded (j.status r)) (do_with_retry L c "GET" "/api/sync/status" none s)

    -- The body up to one byte more than the limit.
    abbrev pub read_limited : String → Response → Outcome (List ℕ)
    read_limited attachment_id r =
        let data_read = take (suc max_download_size) r.body in
        if r.cut_off && not (ltb max_download_size (length data_read))
        then failed read_failed
        else if ltb max_download_size (length data_read)
        then failed (too_large attachment_id)
        else returned data_read

    unfoldable pub download_attachment : String → L.State → L.State × Outcome (List ℕ)
    unfolding do_with_retry parse_error_response
    download_attachment attachment_id s =
        receive (read_limited attachment_id)
          (do_with_retry L c "GET" ("/api/sync/attachments/" <> attachment_id) none s)

    abbrev pub uploaded : L.State × Exchange → L.State × Outcome Nothing
    uploaded (s, broken ended e) = (s, failed (request_ended e))
    uploaded (s, responds r) = receive (λ x. returned nothing) (s, returned r)

    -- One attempt: the file is a stream and cannot be sent twice.
    unfoldable pub upload_attachment : String → List ℕ → L.State → L.State × Outcome Nothing
    unfolding parse_error_response
    upload_attachment attachment_id file s =
        let req : HttpRequest = record {
          method = "POST";
          url = c.base_url <> ("/api/sync/attachments/" <> attachment_id);
          authorization = "Bearer " <> c.token;
          content_type = some "application/octet-stream";
          body = some file;
        } in
        if L.accepts req then uploaded (L.send s req) else (s, failed bad_request)
