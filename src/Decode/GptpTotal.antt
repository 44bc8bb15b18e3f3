-- ===== src/Decode/GptpTotal.antt =====
-- The gPTP decoder of backend/src/decode/decode.cpp comes to an end on any frame.
use avb_introspection.Base.{ℕ, zero, suc, ◌-◌, ◌<◌, List, String, arith, ltb, leb, length}
use avb_introspection.Decode.Gptp.{
  GptpHeader, read_header, parse_header, set_header, gptp_timestamp, follow_up_info, follow_up_tlvs,
  trace_ids, path_trace, announce_tlvs, interval_request, capable_tlv, capable_request,
  signaling_org, signaling_tlv, signaling_tlvs, parse_sync, parse_follow_up, parse_pdelay_resp,
  parse_announce, parse_target, parse_signaling, parse_body, parse_message, parse_gptp,
}
use avb_introspection.Decode.Reads.{
  Reads, span-then, Any, Reads-elim, read-then, pure-Any, fail-Any, Reads-then, Reads-fail,
  Reads-less, read-Reads, then-Any, if-Any, read-Any, span_bytes-Any, left-Any, within-Any, reads,
}

read_header-Any : (b : ℕ) (b0 version : ℕ) → Reads b b Any (read_header b0 version)
unfolding read_header
read_header-Any b b0 version = search (reads) depth 60

parse_header-Any : (b : ℕ) → Reads b b Any parse_header
unfolding parse_header
parse_header-Any b = search (reads, read_header-Any) depth 60

set_header-Any : (b : ℕ) (h : GptpHeader) → Reads b b Any (set_header h)
unfolding set_header
set_header-Any b h = search (reads) depth 60

gptp_timestamp-Any : (b : ℕ) (s n : String) → Reads b b Any (gptp_timestamp s n)
unfolding gptp_timestamp
gptp_timestamp-Any b s n = search (reads) depth 60

follow_up_info-Any : (b : ℕ) → Reads b b Any follow_up_info
unfolding follow_up_info
follow_up_info-Any b = search (reads) depth 60

trace_ids-Any : (b n : ℕ) (trace : String) → Reads b b Any (trace_ids n trace)
unfolding trace_ids
trace_ids-Any b zero trace = pure-Any b trace
trace_ids-Any b (suc n) trace = then-Any (read-Any b 8 _) (λ id. trace_ids-Any b n _)

path_trace-Any : (b : ℕ) (n : ℕ) (tlv : List ℕ) → Reads b b Any (path_trace n tlv)
unfolding path_trace
path_trace-Any b n tlv = search (reads, trace_ids-Any) depth 60

interval_request-Any : (b : ℕ) → Reads b b Any interval_request
unfolding interval_request
interval_request-Any b = search (reads) depth 60

capable_tlv-Any : (b : ℕ) → Reads b b Any capable_tlv
unfolding capable_tlv
capable_tlv-Any b = search (reads) depth 60

capable_request-Any : (b : ℕ) → Reads b b Any capable_request
unfolding capable_request
capable_request-Any b = search (reads) depth 60

signaling_org-Any : (b : ℕ) (org : ℕ) → Reads b b Any (signaling_org org)
unfolding signaling_org
signaling_org-Any b org =
    search (reads, interval_request-Any, capable_tlv-Any, capable_request-Any) depth 60

signaling_tlv-Any : (b : ℕ) (t n : ℕ) → Reads b b Any (signaling_tlv t n)
unfolding signaling_tlv
signaling_tlv-Any b t n = search (reads, signaling_org-Any) depth 60

follow_up_tlvs-Any : (fuel b : ℕ) → b < fuel → Reads b b Any (follow_up_tlvs fuel)
unfolding follow_up_tlvs
follow_up_tlvs-Any zero b enough = absurd (omega (arith, enough))
follow_up_tlvs-Any (suc fuel) b enough = then-Any (left-Any b) (λ n.
    Reads-elim (leb 4 n)
      (λ _. read-then 2 _ (λ room t. Reads-then (read-Reads _ 2 _) (λ len _.
        Reads-then (left-Any _) (λ m _.
          Reads-elim (ltb m len) (λ _. Reads-fail _)
            (λ _. Reads-then (span_bytes-Any _ len _) (λ tlv _.
              Reads-then (if-Any _ (within-Any _ tlv (follow_up_info-Any _)) (pure-Any _ tt))
                (λ _ _.
                  Reads-less (omega (arith, room))
                    (follow_up_tlvs-Any fuel (b - 2 - 2) (omega (arith, enough, room))))))))))
      (λ _. pure-Any b _))

announce_tlvs-Any : (fuel b : ℕ) → b < fuel → Reads b b Any (announce_tlvs fuel)
unfolding announce_tlvs
announce_tlvs-Any zero b enough = absurd (omega (arith, enough))
announce_tlvs-Any (suc fuel) b enough = then-Any (left-Any b) (λ n.
    Reads-elim (leb 4 n)
      (λ _. read-then 2 _ (λ room t. Reads-then (read-Reads _ 2 _) (λ len _.
        Reads-then (left-Any _) (λ m _.
          Reads-elim (ltb m len) (λ _. Reads-fail _)
            (λ _. Reads-then (span_bytes-Any _ len _) (λ tlv _.
              Reads-then (if-Any _ (path_trace-Any _ len tlv) (pure-Any _ tt)) (λ _ _.
                Reads-less (omega (arith, room))
                  (announce_tlvs-Any fuel (b - 2 - 2) (omega (arith, enough, room))))))))))
      (λ _. pure-Any b _))

signaling_tlvs-Any : (fuel b : ℕ) (count : ℕ) → b < fuel → Reads b b Any (signaling_tlvs fuel count)
unfolding signaling_tlvs
signaling_tlvs-Any zero b count enough = absurd (omega (arith, enough))
signaling_tlvs-Any (suc fuel) b count enough = then-Any (left-Any b) (λ n.
    Reads-elim (leb 4 n)
      (λ _. read-then 2 _ (λ room t. Reads-then (read-Reads _ 2 _) (λ len _.
        Reads-then (left-Any _) (λ m _.
          Reads-elim (ltb m len) (λ _. Reads-less (omega arith) (pure-Any _ count))
            (λ _. Reads-then (span_bytes-Any _ len _) (λ tlv _.
              Reads-then (within-Any _ tlv (signaling_tlv-Any _ t len)) (λ _ _.
                Reads-less (omega (arith, room))
                  (signaling_tlvs-Any fuel (b - 2 - 2) _ (omega (arith, enough, room))))))))))
      (λ _. pure-Any b _))

parse_sync-Any : (b : ℕ) → Reads b b Any parse_sync
unfolding parse_sync
parse_sync-Any b = search (reads, gptp_timestamp-Any) depth 60

parse_follow_up-Any : (fuel b : ℕ) → b < fuel → Reads b b Any (parse_follow_up fuel)
unfolding parse_follow_up
parse_follow_up-Any fuel b enough =
    search (reads, gptp_timestamp-Any, follow_up_tlvs-Any, enough) depth 40

parse_pdelay_resp-Any : (b : ℕ) (s n : String) → Reads b b Any (parse_pdelay_resp s n)
unfolding parse_pdelay_resp
parse_pdelay_resp-Any b s n = search (reads, gptp_timestamp-Any) depth 60

parse_announce-Any : (fuel b : ℕ) → b < fuel → Reads b b Any (parse_announce fuel)
unfolding parse_announce
parse_announce-Any fuel b enough = search (reads, announce_tlvs-Any, enough) depth 40

parse_target-Any : (b : ℕ) → Reads b b Any parse_target
unfolding parse_target
parse_target-Any b = search (reads) depth 60

parse_signaling-Any : (fuel b : ℕ) → b < fuel → Reads b b Any (parse_signaling fuel)
unfolding parse_signaling
parse_signaling-Any fuel b enough =
    search (reads, parse_target-Any, signaling_tlvs-Any, enough) depth 40

parse_body-Any : (fuel b : ℕ) (m : ℕ) → b < fuel → Reads b b Any (parse_body fuel m)
unfolding parse_body
parse_body-Any fuel b m enough =
    search
      (
        reads, parse_sync-Any, parse_follow_up-Any, parse_pdelay_resp-Any, parse_announce-Any,
        parse_signaling-Any, enough,
      )
      depth 40

parse_message-Any : (fuel b : ℕ) (h : GptpHeader) → b < fuel → Reads b b Any (parse_message fuel h)
unfolding parse_message
parse_message-Any fuel b h enough = if-Any (ltb h.msg_len 34) (fail-Any b _) (
    span-then (h.msg_len - 34) "gPTP body" (λ body len room. Reads-then (set_header-Any _ h) (λ _ _.
      Reads-less (omega arith) (
        within-Any _ body
          (parse_body-Any fuel (length body) h.msg_type (omega (arith, len, room, enough)))))))

pub parse_gptp-Any : (fuel b : ℕ) → b < fuel → Reads b b Any (parse_gptp fuel)
unfolding parse_gptp
parse_gptp-Any fuel b enough =
    then-Any (parse_header-Any b) (λ h. parse_message-Any fuel b h enough)
