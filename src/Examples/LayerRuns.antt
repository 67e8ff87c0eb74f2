-- ===== src/Examples/LayerRuns.antt =====
-- The transaction layer (pkg/transaction/layer.go) on concrete inputs.
use funsip.Base.{◌≡◌, refl, none, some, List, [], ◌∷◌, ◌++◌, get_elem?, length}
use funsip.Base.Int.{pos}
use funsip.Text.{
  lit, to_lower, trim_space, cut, cut_last, split, atoi, to_upper, itoa, split_n2, split_n3, fields,
}
use funsip.Sip.Headers.{new_headers, get, set, add, get_all}
use funsip.Sip.Via.{parse_via, branch, sent_by}
use funsip.Sip.Headers.Invariant.{IsIndexed, new_headers-IsIndexed, set-IsIndexed, add-IsIndexed}
use funsip.Sip.Message.{
  Message, new_request, create_response, max_forwards, cseq_method, top_via, vias,
}
use funsip.Transaction.Keys.{
  key_text, make_client_key, make_server_key, make_invite_key_from_cancel,
}
use funsip.Transaction.Client.{new_client_invite_tx}
use funsip.Transaction.Server.{new_server_invite_tx, new_server_non_invite_tx}
use funsip.Transaction.Server as Server
use funsip.Transaction.Layer.State.{Layer, new_layer, find_server_tx}
use funsip.Transaction.Layer.Branches.{new_client_tx, handle_cancel_matched}
use funsip.Transaction.Layer.Receive.{receive_request, with_max_forwards, invite_key_of}
use funsip.Transaction.Layer.Steps.{LayerEvent, arrives, opens, collects, wakes, step, run}
use funsip.Transaction.Layer.Soundness.{AllSound}
use funsip.Transaction.Layer.Soundness.Events.{
  layer_step-AllSound, new_layer-AllSound, layer_run-AllSound,
}
use funsip.Transaction.Layer.Requests.{request_handed_once}
use funsip.Transaction.Layer.Cancels.{cancel_matched, branches_of}
use funsip.Transaction.Layer.Due.{CancelEach, waiting}
use funsip.Transaction.Client.{ClientTx}
use funsip.Examples.Messages.{invite, request_headers}

abbrev cancel : Message
cancel = record (new_request (lit "CANCEL") none) {
  headers = request_headers (lit "1 CANCEL");
  source_ip = lit "10.0.0.1";
  source_port = pos 5070;
  transport = lit "UDP";
}

abbrev one_branch : List LayerEvent
one_branch = arrives invite 0 ∷ opens (some invite) invite (lit "10.0.0.3:5060") (lit "UDP") 1 ∷ []

-- The layer with an INVITE that was forwarded once.
abbrev forwarded : Layer
forwarded = run new_layer one_branch

layer_step-AllSound_example : AllSound (step forwarded (arrives cancel 20))
layer_step-AllSound_example =
    layer_step-AllSound forwarded (arrives cancel 20)
      (layer_run-AllSound new_layer one_branch new_layer-AllSound)

abbrev meanwhile : List LayerEvent
meanwhile =
    opens (some invite) invite (lit "10.0.0.3:5060") (lit "UDP") 1
    ∷ collects
    ∷ arrives cancel 20
    ∷ wakes 0
    ∷ []

request_handed_once_example :
    let k = run (receive_request invite 0 new_layer) meanwhile in
    (receive_request invite 500 k).handed ≡ k.handed
unfolding run step receive_request new_client_tx new_request max_forwards get set add to_lower
    new_server_invite_tx new_layer new_client_invite_tx key_text make_server_key
    make_invite_key_from_cancel make_client_key cseq_method top_via vias get_all parse_via branch
    sent_by trim_space cut cut_last split atoi to_upper itoa split_n2 split_n3 fields
request_handed_once_example =
    request_handed_once invite 0 500 new_layer meanwhile refl (tt, (refl, (tt, (tt, tt))))

invite-IsIndexed : IsIndexed invite.headers
unfolding new_request
invite-IsIndexed = set-IsIndexed _ _ _ (
    set-IsIndexed _ _ _ (add-IsIndexed _ _ _ (add-IsIndexed new_headers _ _ new_headers-IsIndexed)))

cancel_unknown : find_server_tx cancel forwarded ≡ none
unfolding run step receive_request new_client_tx new_request max_forwards get set add to_lower
    new_server_invite_tx new_layer new_client_invite_tx key_text make_server_key
    make_invite_key_from_cancel make_client_key cseq_method top_via vias get_all parse_via branch
    sent_by trim_space cut cut_last split atoi to_upper itoa split_n2 split_n3 fields
cancel_unknown = refl

invite_there :
    get_elem? forwarded.server_heap 0 ≡ some (new_server_invite_tx (with_max_forwards invite) 0)
unfolding run step receive_request new_client_tx new_request max_forwards get set add to_lower
    new_server_invite_tx new_layer
invite_there = refl

cancel_matched_example :
    let k = handle_cancel_matched cancel 0 (invite_key_of cancel) 20 forwarded in
    (get_elem? k.server_heap 0
      ≡ some (
          Server.respond
            (create_response (with_max_forwards invite) (pos 487) (lit "Request Terminated"))
            (new_server_invite_tx (with_max_forwards invite) 0)))
    × (get_elem? k.server_heap (length forwarded.server_heap)
        ≡ some (
            Server.respond
              (create_response cancel (pos 200) (lit "OK"))
              (new_server_non_invite_tx cancel 20)))
    × ((opened : List ClientTx) × (k.client_heap ≡ forwarded.client_heap ++ opened)
        × CancelEach 20
            (waiting forwarded.client_heap (branches_of (invite_key_of cancel) forwarded))
            opened)
    × (k.handed ≡ forwarded.handed)
unfolding max_forwards new_server_invite_tx
cancel_matched_example =
    cancel_matched cancel 0 (invite_key_of cancel) 20 forwarded
      (new_server_invite_tx (with_max_forwards invite) 0) cancel_unknown invite_there
