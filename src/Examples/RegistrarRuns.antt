-- ===== src/Examples/RegistrarRuns.antt =====
-- Registrations (pkg/registrar/registrar.go) over the table on concrete inputs.
use funsip.Base.{arith, ◌≡◌, refl, none, some, [], ◌∷◌, if◌then◌else◌}
use funsip.Base.Int.{pos}
use funsip.Text.{Text, lit, to_lower, cut, trim_space, cut_last, split, atoi}
use funsip.Sip.Headers.{new_headers, get, set, get_all}
use funsip.Sip.Uri.{Uri, aor, uri_text, parse_uri}
use funsip.Sip.Address.{Address, parse_address, parse_addr_params}
use funsip.Sip.Message.{Message, new_request, cseq_num, to_address, contacts}
use funsip.Registrar.Binding.{Binding}
use funsip.Registrar.Register.{Registrar, new_binding, get_expires, process_register}
use funsip.Registrar.Table.{table, is_row}
use funsip.Registrar.Rows.{find_row}
use funsip.Registrar.Refresh.{register_binds}

abbrev phone : Binding
phone = record {
  aor = lit "sip:bob@e";
  contact = lit "sip:bob@p";
  expires_at = pos 60;
  received_ip = lit "10.0.0.7";
  received_port = pos 5060;
  transport = lit "UDP";
  user_agent = [];
  call_id = lit "r1";
  cseq = pos 1;
}

abbrev registered : Registrar table
registered = record { db = phone ∷ []; events = [] }

abbrev register_for : Text → Message
register_for expires = record (new_request (lit "REGISTER") none) {
  headers =
      set (set (set new_headers (lit "To") (lit "<sip:bob@e>")) (lit "Contact") (lit "<sip:bob@p>"))
        (lit "Expires") expires;
}

abbrev uri_at : Text → Uri
uri_at host = record {
  scheme = lit "sip";
  user = lit "bob";
  host = host;
  port = pos 0;
  params = [];
  headers = [];
}

abbrev address_at : Text → Address
address_at host = record { display_name = []; uri = uri_at host; params = [] }

register_binds_example :
    let (resp, s) = process_register table (register_for (lit "30")) 40 registered in
    (resp.status_code ≡ pos 200)
    × ((user contact : Text)
        → let b =
            new_binding
              (register_for (lit "30"))
              (aor (uri_at (lit "e")))
              (uri_text (uri_at (lit "p")))
              (pos 70)
              (cseq_num (register_for (lit "30"))) in
          find_row user contact s.db
          ≡ (if is_row user contact b then some b else find_row user contact registered.db))
unfolding to_address parse_address get set new_headers to_lower cut trim_space parse_uri cut_last
    parse_addr_params split contacts get_all get_expires atoi
register_binds_example =
    register_binds (register_for (lit "30")) (address_at (lit "e")) (address_at (lit "p")) 29 40
      registered refl refl refl (omega arith)
