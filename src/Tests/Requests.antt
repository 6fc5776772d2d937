-- ===== src/Tests/Requests.antt =====
-- Requests of users, admins and concentrators on the database of two machines.
use wgroster.Store.Models.{Machine}
use wgroster.Prelude.{
  In, ◌≤◌, ◌++◌, ◌≡◌, ◌↔◌, refl, true, false, none, some, [], ◌∷◌, any, Distinct, Text, txt, arith,
  All,
}
use wgroster.Strings.{signed, is_space, trim_space}
use wgroster.Netip.{next}
use wgroster.Store.Db.{Db}
use wgroster.Store.Machines.{count_pending_by_owner}
use wgroster.Store.Service.{active_machines_for_endpoint}
use wgroster.Wg.Config.{client_config, concentrator_config}
use wgroster.Wg.Config.Lines.{directives}
use wgroster.Wg.Config.Concentrator.{concentrator_directives}
use wgroster.Web.Handlers.{done}
use wgroster.Web.Handlers.Devices.{config, handle_machine_config, handle_add_machine}
use wgroster.Web.Handlers.Devices.Cap.{handle_add_machine-cap}
use wgroster.Web.Handlers.Enroll.{EnrollResponse, enrolled, handle_enroll}
use wgroster.Web.Handlers.Enroll.Reservation.{IsReserved, handle_enroll-IsReserved}
use wgroster.Web.Handlers.Machines.{handle_admin_create_machine, form_refusal}
use wgroster.Web.Handlers.Machines.Creation.{
  Ending, approved_row, handle_admin_create_machine-Ending, handle_admin_create_machine-done,
}
use wgroster.Web.Peers.{
  api_not_found, as_text, authorized, rejected, auth_endpoint, handle_endpoint_config_api,
}
use wgroster.Web.Peers.Access.{IsAuthorized, auth_endpoint_iff, auth_endpoint_uniform}
use wgroster.Web.Routes.Served.{
  IsInServiceOn, IsServed, handle_machine_config-IsServed, handle_endpoint_config_api-says,
}
use wgroster.Web.Handlers.Devices.{active_config}
use wgroster.Store.Machines.{address_of_other}
use wgroster.Web.Peers.{bearer_token}
use wgroster.Netip.{block_of}
use wgroster.Ipam.{broadcast}
use wgroster.Strings.{byte_len}
use wgroster.Web.Handlers.Devices.{config_of}
use wgroster.Web.Conflicts.{conflict_among}
use wgroster.Web.Conflicts.{conflict_with}
use wgroster.Netip.{contains}
use wgroster.Store.Machines.{create_machine}
use wgroster.Strings.{cut_prefix}
use wgroster.Strings.{digits}
use wgroster.Strings.{digits_from}
use wgroster.Store.Endpoints.{endpoint_by_name}
use wgroster.Store.Service.{endpoints_for_machine}
use wgroster.Strings.{ends_with}
use wgroster.Web.Handlers.Enroll.{enroll_created}
use wgroster.Web.Handlers.Enroll.{enroll_on}
use wgroster.Web.Handlers.Enroll.{enroll_response}
use wgroster.Web.Conflicts.{first_conflict}
use wgroster.Store.Endpoints.{get_endpoint}
use wgroster.Store.Machines.{get_machine}
use wgroster.Store.Machines.{has_endpoint}
use wgroster.Store.Machines.{has_key}
use wgroster.Prelude.{insert_by}
use wgroster.Store.Service.{insert_links}
use wgroster.Strings.{is_control}
use wgroster.Web.Forms.{key_shape}
use wgroster.Ipam.{next_free}
use wgroster.Store.Models.{normalize_icon}
use wgroster.Ipam.{parse_all}
use wgroster.Web.Forms.{parse_endpoint_ids}
use wgroster.Strings.{parse_int}
use wgroster.Web.Conflicts.{parsed_endpoints}
use wgroster.Store.Service.{replace_endpoints}
use wgroster.Ipam.{search}
use wgroster.Ipam.{search_from}
use wgroster.Store.Machines.{set_machine_address}
use wgroster.Store.Service.{set_machine_endpoints}
use wgroster.Prelude.{sort_by}
use wgroster.Prelude.{text_discrete}
use wgroster.Prelude.{text_lt}
use wgroster.Web.Peers.{token_matches}
use wgroster.Strings.{trim_left}
use wgroster.Strings.{trim_right}
use wgroster.Store.Service.{used_addresses}
use wgroster.Web.Forms.{valid_name}
use wgroster.Web.Forms.{valid_public_key}
use wgroster.Ipam.{validate}
use wgroster.Ipam.{validate_parsed}
use wgroster.Strings.{without_last}
use wgroster.Tests.Tables.{laptop, gate, roster}
use wgroster.Tests.Histories.{server, root, ada, laptop_form, roster-IsSound}

-- The configuration of ada's laptop.
abbrev laptop_text : Text
laptop_text = client_config laptop (gate ∷ [])

served : handle_machine_config ada (some 1) roster ≡ config laptop_text false
unfolding handle_machine_config get_machine active_config config_of endpoints_for_machine sort_by
    insert_by text_lt text_discrete
served = refl

handle_machine_config-IsServed_example : IsServed ada roster laptop_text
handle_machine_config-IsServed_example =
    handle_machine_config-IsServed ada (some 1) roster laptop_text false roster-IsSound.plain served

abbrev header : Text
header = txt "Bearer T"

gate_authorized : auth_endpoint (some 1) header roster ≡ authorized gate
unfolding auth_endpoint bearer_token cut_prefix get_endpoint is_space text_discrete token_matches
    trim_left trim_right trim_space
gate_authorized = refl

abbrev gate_text : Text
gate_text = concentrator_config gate (active_machines_for_endpoint 1 roster)

fetched : handle_endpoint_config_api (some 1) header roster ≡ as_text gate_text
unfolding handle_endpoint_config_api auth_endpoint bearer_token cut_prefix get_endpoint is_space
    text_discrete token_matches trim_left trim_right trim_space
fetched = refl

handle_endpoint_config_api-says_example :
    (directives gate_text ≡ concentrator_directives gate (active_machines_for_endpoint 1 roster))
    × ((m : Machine) → In m (active_machines_for_endpoint 1 roster) ↔ IsInServiceOn 1 roster m)
handle_endpoint_config_api-says_example =
    handle_endpoint_config_api-says (some 1) header roster gate gate_text roster-IsSound.plain
      gate_authorized fetched

auth_endpoint_iff_example :
    (auth_endpoint (some 1) header roster ≡ authorized gate) ↔ IsAuthorized 1 header roster gate
auth_endpoint_iff_example = auth_endpoint_iff 1 header roster gate

other_token : auth_endpoint (some 1) (txt "Bearer X") roster ≡ rejected api_not_found
unfolding auth_endpoint bearer_token cut_prefix get_endpoint is_space text_discrete token_matches
    trim_left trim_right trim_space
other_token = refl

no_endpoint : auth_endpoint (some 5) (txt "Bearer X") roster ≡ rejected api_not_found
unfolding auth_endpoint bearer_token cut_prefix get_endpoint is_space text_discrete token_matches
    trim_left trim_right trim_space
no_endpoint = refl

auth_endpoint_uniform_example : api_not_found ≡ api_not_found
auth_endpoint_uniform_example =
    auth_endpoint_uniform 1 5 (txt "Bearer X") roster api_not_found api_not_found other_token
      no_endpoint

abbrev enrollment : EnrollResponse
enrollment = record {
  address = (4 ∷ 168296469 ∷ []) ++ txt "/32";
  dns = [];
  mtu = 0;
  public_key = txt "E1";
  endpoint = txt "vpn:51820";
  allowed_ips = txt "10.0.0.0/8";
  persistent_keepalive = 25;
}

abbrev enrolled_db : Db
enrolled_db = (handle_enroll server.netip server.cfg server.pool 20 ada laptop_form roster).1

enroll_test :
    handle_enroll server.netip server.cfg server.pool 20 ada laptop_form roster
    ≡ (enrolled enrollment, enrolled_db)
unfolding handle_enroll block_of broadcast byte_len contains count_pending_by_owner create_machine
    endpoint_by_name ends_with enroll_created enroll_on enroll_response insert_links is_control
    is_space key_shape next next_free normalize_icon parse_all replace_endpoints search search_from
    set_machine_address set_machine_endpoints text_discrete trim_left trim_right trim_space
    used_addresses valid_name valid_public_key without_last
enroll_test = refl

handle_enroll-IsReserved_example :
    IsReserved server.netip server.cfg server.pool 20 ada laptop_form roster enrollment enrolled_db
handle_enroll-IsReserved_example =
    handle_enroll-IsReserved server.netip server.cfg server.pool 20 ada laptop_form roster
      enrollment enrolled_db refl enroll_test

handle_admin_create_machine-Ending_example :
    Ending 30 root laptop_form roster
      (handle_admin_create_machine server.netip server.pool 30 root laptop_form roster).0
      (handle_admin_create_machine server.netip server.pool 30 root laptop_form roster).1
handle_admin_create_machine-Ending_example =
    handle_admin_create_machine-Ending server.netip server.pool 30 root laptop_form roster

owner_allowed : valid_name (trim_space laptop_form.owner_uid) ≡ true
unfolding is_control is_space text_discrete trim_left trim_right trim_space valid_name
owner_allowed = refl

name_allowed : valid_name (trim_space laptop_form.name) ≡ true
unfolding is_control is_space text_discrete trim_left trim_right trim_space valid_name
name_allowed = refl

form_allowed :
    form_refusal server.netip server.pool (used_addresses roster) laptop_form roster ≡ none
unfolding form_refusal validate block_of broadcast byte_len conflict_among conflict_with contains
    digits digits_from ends_with first_conflict is_space key_shape parse_endpoint_ids parse_int
    parsed_endpoints signed text_discrete trim_left trim_right trim_space used_addresses
    valid_public_key validate_parsed without_last
form_allowed = refl

new_key : any (has_key (trim_space laptop_form.public_key)) roster.machines ≡ false
unfolding is_space text_discrete trim_left trim_right trim_space
new_key = refl

new_address : any (address_of_other 3 (trim_space laptop_form.address)) roster.machines ≡ false
unfolding is_space text_discrete trim_left trim_right trim_space
new_address = refl

gate_listed :
    All (λ eid. has_endpoint eid roster ≡ true) (parse_endpoint_ids laptop_form.endpoint_ids)
    × Distinct (parse_endpoint_ids laptop_form.endpoint_ids)
unfolding digits digits_from parse_endpoint_ids parse_int signed
gate_listed = ((refl, tt), (tt, tt))

handle_admin_create_machine-done_example :
    (handle_admin_create_machine server.netip server.pool 30 root laptop_form roster).0 ≡ done
    × ((handle_admin_create_machine server.netip server.pool 30 root laptop_form roster).1.machines
        ≡ roster.machines ++ approved_row 30 root laptop_form roster ∷ [])
handle_admin_create_machine-done_example =
    handle_admin_create_machine-done server.netip server.pool 30 root laptop_form roster
      owner_allowed name_allowed form_allowed new_key refl new_address gate_listed.0 gate_listed.1

under_cap : count_pending_by_owner (txt "ada") roster ≤ 3
unfolding count_pending_by_owner text_discrete
under_cap = omega arith

handle_add_machine-cap_example :
    count_pending_by_owner (txt "ada") (handle_add_machine server.cfg 20 ada laptop_form roster).1
    ≤ 3
handle_add_machine-cap_example =
    handle_add_machine-cap server.cfg 20 ada laptop_form roster (omega arith) under_cap
