-- ===== src/Pserial/RoundTrip.antt =====
-- A control request from the host's `write` to the response that the host reads.
use esp_hosted.Prelude.{
  ℕ, ◌+◌, ◌%◌, ◌<◌, ◌≤◌, ◌≡◌, Bool, true, List, [], ◌∷◌, map, Option, some, length, arith,
}
use esp_hosted.Slave.{RxData, no_data, rx_frames, serial_write_data, frame_of}
use esp_hosted.Slave.Fragments.{all_taken}
use esp_hosted.Reasm.{reset, reasm_frames}
use esp_hosted.Reasm.RoundTrip.{reasm_frames-serial_write_data}
use esp_hosted.Serial.{Dev, write_dev}
use esp_hosted.Serial.Fragments.{calm, received, write_dev-received}
use esp_hosted.Tlv.{transport_pserial_send, writes, compose_tlv, ep_name_resp, host_parse_tlv}
use esp_hosted.Tlv.Memory.{mem}
use esp_hosted.Tlv.RoundTrip.{
  send_fits, parse_request-compose_tlv, host_parse_tlv-compose_tlv, length-compose_tlv,
}
use esp_hosted.Pserial.{
  SerialArg, respond, ctrl_req_handler, task_step, data_ready, parse_protobuf_req,
}

module _ (req_handle : List ℕ → ℕ → List ℕ → Option (List ℕ)) (xmit : List ℕ → Bool) (junk : ℕ → ℕ)
    (event_base event_max unknown_msg_id : ℕ) (unknown : unknown_msg_id ≤ event_base) where
  handler_lem :
      (req resp : List ℕ)
      → 0 < length req
      → length req < 65536
      → req_handle ep_name_resp 0 req ≡ some resp
      → ctrl_req_handler req_handle xmit true junk 3
          (compose_tlv ep_name_resp req)
          (length (compose_tlv ep_name_resp req))
        ≡ record {
          ok = xmit (compose_tlv ep_name_resp resp);
          sent = some (compose_tlv ep_name_resp resp);
        }
  unfolding ctrl_req_handler respond
  handler_lem req resp z s e = ground (arith, parse_request-compose_tlv req junk z s, e)

  -- A request of 1 to 8158 bytes that the host frames and writes to its serial device arrives in one
  -- piece; the control task reads it, hands it to the dispatcher as "ctrlResp", and transmits the
  -- framed response; the host's driver reassembles the frames of that response, up to 12274 bytes,
  -- from any sequence number, to one message, in which its parser finds the length of the response.
  -- The host's interface is open, the transport takes all, memory is there, and the number of a
  -- request is no event's.
  pub control_round_trip :
      (d : Dev) (seq : ℕ) (req resp : List ℕ)
      → d.priv ≡ true
      → 0 < length req
      → length req ≤ 8158
      → req_handle ep_name_resp 0 req ≡ some resp
      → length resp ≤ 12274
      → (msg : List ℕ) × (r : RxData) × (arg : SerialArg) × (transport_pserial_send true true req
          ≡ writes msg)
        × (rx_frames no_data (write_dev calm d msg).2 ≡ some r)
        × (parse_protobuf_req true unknown_msg_id r ≡ some arg)
        × (task_step req_handle xmit true junk 3 event_base event_max r arg ≡ (
          no_data,
          some (record {
            ok = xmit (compose_tlv ep_name_resp resp);
            sent = some (compose_tlv ep_name_resp resp);
          }),
        ))
        × (reasm_frames reset
              (map frame_of (serial_write_data all_taken seq (compose_tlv ep_name_resp resp)).1)
            ≡ (reset, compose_tlv ep_name_resp resp ∷ []))
        × (host_parse_tlv (mem (compose_tlv ep_name_resp resp) junk) ≡ some (length resp))
  unfolding task_step parse_protobuf_req data_ready
  control_round_trip d seq req resp p z s e t =
      let msg = compose_tlv ep_name_resp req in
      let reply = compose_tlv ep_name_resp resp in
      let n = length-compose_tlv req in
      let (w1, w2, w3, w4) = write_dev-received d 0 msg p (omega (arith, n)) in
      (
        msg,
        received ((d.seq_num + 1) % 65536) msg,
        record { msg_id = unknown_msg_id; len = length msg; bytes = msg },
        send_fits req (omega (arith, s)),
        w3,
        ground (arith, n),
        ground (arith, w4, n, handler_lem req resp z (omega arith) e),
        reasm_frames-serial_write_data seq reply (omega (arith, length-compose_tlv resp)),
        (host_parse_tlv-compose_tlv resp junk (omega arith)).0,
      )
