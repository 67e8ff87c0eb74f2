-- ===== src/Registrar/Register.antt =====
-- ProcessRegister of pkg/registrar/registrar.go. The database is an interface: each operation may fail.
-- Times are seconds; the clock is an argument, which is read at a whole second. Events are recorded.
use funsip.Base.{
  ℕ, ◌+◌, ◌-◌, ◌*◌, ◌/◌, ◌%◌, ◌^◌, ltb, ◌&&◌, not, Option, none, some, List, [], ◌∷◌, ◌++◌,
  if◌then◌else◌, lookup,
}
use funsip.Base.Int.{ℤ, pos, negsuc, sub_ℕ, gt_const}
use funsip.Text.{Text, text_keys, text_eq, lit, is_empty, trim_space, atoi, AtoiError, to_lower}
use funsip.Sip.Headers.{get, add}
use funsip.Sip.Message.{Message, create_response, to_address, contacts, call_id, cseq_num}
use funsip.Sip.Message.Wire.{int_text}
use funsip.Sip.Address.{Address}
use funsip.Sip.Uri.{UriResult, parsed, failed, parse_uri, uri_text, aor}
use funsip.Proxy.Config.{address_of, is_zero}
use funsip.Registrar.Binding.{Binding}

-- The database of pkg/store/db.go as the registrar uses it, with `none` for an error. A lookup takes
-- the time that the database reads for itself.
pub record BindingStore (D : Type 0) : Type 0 where
  pub lookup_bindings : Text → ℕ → D → Option (List Binding)
  pub save_binding : Binding → D → Option D
  pub delete_binding : Text → Text → D → Option D
  pub delete_all_bindings : Text → D → Option D
  pub expire_bindings : ℕ → D → Option (List Binding) × D

pub data RegKind : Type 0 where
  reg_new reg_del reg_expired : RegKind

pub record RegEvent : Type 0 where
  pub kind : RegKind
  pub binding : Binding

abbrev pub default_expires : ℤ
default_expires = pos 3600

abbrev number_or : ℤ → ℤ × Option AtoiError → ℤ
number_or other (n, none) = n
number_or other (n, some e) = other

-- getExpires
unfoldable pub get_expires : Message → ℤ
get_expires req =
    let exp = get req.headers (lit "Expires") in
    if is_empty exp then default_expires else number_or default_expires (atoi (trim_space exp))

abbrev param_expires : ℤ → Option Text → ℤ
param_expires expires none = expires
param_expires expires (some ce) = number_or expires (atoi ce)

abbrev pub contact_expires : ℤ → Address → ℤ
contact_expires expires contact =
    param_expires expires (lookup text_keys (lit "expires") contact.params)

abbrev pub user_of : UriResult → Text
user_of (parsed u) = u.user
user_of (failed e) = []

-- extractUser
unfoldable pub extract_user : Text → Text
extract_user contact = user_of (parse_uri contact)

abbrev plus : ℤ → ℤ → ℤ
plus (pos a) (pos b) = pos (a + b)
plus (pos a) (negsuc b) = sub_ℕ a (b + 1)
plus (negsuc a) (pos b) = sub_ℕ b (a + 1)
plus (negsuc a) (negsuc b) = negsuc (a + b + 1)

-- `time.Duration(n) * time.Second` in whole seconds: nanoseconds in 64 bits, which wrap.
abbrev seconds_of : ℕ → ℤ
seconds_of nanos =
    if ltb nanos (2 ^ 63)
    then pos (nanos / 1000000000)
    else negsuc ((2 ^ 64 - nanos - 1) / 1000000000)

abbrev pub duration : ℤ → ℤ
duration (pos n) = seconds_of (n * 1000000000 % 2 ^ 64)
duration (negsuc n) = seconds_of ((2 ^ 64 - (n + 1) * 1000000000 % 2 ^ 64) % 2 ^ 64)

-- The seconds from now to a time, at least 0
abbrev pub remaining : ℤ → ℕ → ℕ
remaining (pos t) now = t - now
remaining (negsuc t) now = 0

abbrev pub contact_uri : Binding → Text
contact_uri b =
    if not (is_empty b.received_ip) && gt_const b.received_port 0
    then lit "sip:"
      ++ (extract_user b.contact
          ++ b'@'
            ∷ (address_of b.received_ip b.received_port
                ++ (lit ";transport=" ++ to_lower b.transport)))
    else b.contact

abbrev pub contact_value : ℕ → Binding → Text
contact_value now b =
    b'<' ∷ (contact_uri b ++ (lit ">;expires=" ++ int_text (pos (remaining b.expires_at now))))

abbrev pub list_bindings : ℕ → List Binding → Message → Message
list_bindings now [] resp = resp
list_bindings now (b ∷ bs) resp =
    list_bindings now bs
      (record resp { headers = add resp.headers (lit "Contact") (contact_value now b) })

abbrev server_error : Message → Message
server_error req = create_response req (pos 500) (lit "Server Internal Error")

abbrev pub new_binding : Message → Text → Text → ℤ → ℤ → Binding
new_binding req aor contact expires_at cseq = record {
  aor = aor;
  contact = contact;
  expires_at = expires_at;
  received_ip = req.source_ip;
  received_port = req.source_port;
  transport = req.transport;
  user_agent = get req.headers (lit "User-Agent");
  call_id = call_id req;
  cseq = cseq;
}

abbrev report_all : RegKind → List Binding → List RegEvent → List RegEvent
report_all kind [] es = es
report_all kind (b ∷ bs) es = report_all kind bs (record { kind = kind; binding = b } ∷ es)

abbrev found_or_none : Option (List Binding) → List Binding
found_or_none none = []
found_or_none (some bs) = bs

module _ {D : Type 0} (store : BindingStore D) where
  pub record Registrar : Type 0 where
    pub db : D
    pub events : List RegEvent

  -- What a contact does: the new state, or a response that ends the processing.
  pub data Outcome : Type 0 where
    goes_on : Registrar → Outcome
    ends : Message → Registrar → Outcome

  abbrev listed : Option (List Binding) → Message → ℕ → Message
  listed none req now = server_error req
  listed (some bs) req now = list_bindings now bs (create_response req (pos 200) (lit "OK"))

  -- queryBindings
  unfoldable pub query_bindings : Message → Text → ℕ → Registrar → Message
  query_bindings req aor now r = listed (store.lookup_bindings aor now r.db) req now

  abbrev all_deleted : Option D → Message → List Binding → Registrar → Outcome
  all_deleted none req old r = ends (server_error req) r
  all_deleted (some db) req old r =
      goes_on (record { db = db; events = report_all reg_del old r.events })

  abbrev delete_all : Message → Text → ℕ → Registrar → Outcome
  delete_all req aor now r =
      all_deleted (store.delete_all_bindings aor r.db) req
        (found_or_none (store.lookup_bindings aor now r.db)) r

  abbrev or_same : Option D → D → D
  or_same none db = db
  or_same (some db') db = db'

  -- An error of the deletion is only logged.
  abbrev delete_one : Message → Text → Text → Registrar → Outcome
  delete_one req aor contact r = goes_on (record {
    db = or_same (store.delete_binding aor contact r.db) r.db;
    events =
        record { kind = reg_del; binding = new_binding req aor contact (pos 0) (pos 0) } ∷ r.events;
  })

  abbrev saved : Option D → Message → Binding → Registrar → Outcome
  saved none req b r = ends (server_error req) r
  saved (some db) req b r =
      goes_on (record { db = db; events = record { kind = reg_new; binding = b } ∷ r.events })

  abbrev save : Message → Binding → Registrar → Outcome
  save req b r = saved (store.save_binding b r.db) req b r

  abbrev pub register_contact : Message → Text → Text → ℤ → ℕ → Registrar → Outcome
  register_contact req aor contact expires now r =
      if text_eq contact (lit "*") && is_zero expires
      then delete_all req aor now r
      else if is_zero expires
      then delete_one req aor contact r
      else save req (new_binding req aor contact (plus (pos now) (duration expires)) (cseq_num req))
          r

  abbrev then_query : Outcome → Message → Text → ℕ → Message × Registrar
  then_query (ends resp r) req aor now = (resp, r)
  then_query (goes_on r) req aor now = (query_bindings req aor now r, r)

  abbrev next_contact : Outcome → (Registrar → Outcome) → Outcome
  next_contact (ends resp r) next = ends resp r
  next_contact (goes_on r) next = next r

  abbrev pub register_contacts : Message → Text → ℤ → List Address → ℕ → Registrar → Outcome
  register_contacts req aor expires [] now r = goes_on r
  register_contacts req aor expires (c ∷ cs) now r =
      next_contact (register_contact req aor (uri_text c.uri) (contact_expires expires c) now r)
        (register_contacts req aor expires cs now)

  abbrev register_at : Option Address → Message → ℕ → Registrar → Message × Registrar
  register_at none req now r = (create_response req (pos 400) (lit "Bad Request"), r)
  register_at (some to) req now r =
      then_query (register_contacts req (aor to.uri) (get_expires req) (contacts req) now r) req
        (aor to.uri) now

  -- ProcessRegister
  unfoldable pub process_register : Message → ℕ → Registrar → Message × Registrar
  unfolding query_bindings get_expires
  process_register req now r = register_at (to_address req) req now r

  abbrev swept : Option (List Binding) × D → Registrar → Registrar
  swept (none, db) r = record r { db = db }
  swept (some bs, db) r = record { db = db; events = report_all reg_expired bs r.events }

  -- SweepExpired
  unfoldable pub sweep_expired : ℕ → Registrar → Registrar
  sweep_expired now r = swept (store.expire_bindings now r.db) r
