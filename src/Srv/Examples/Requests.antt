-- ===== src/Srv/Examples/Requests.antt =====
-- The theorems on the server's requests and on its loop at concrete inputs.
use aws_nitro_enclaves_acm.Prelude.{
  ◌+◌, ◌≡◌, refl, subst, ap, none, some, [], ◌∷◌, codes, true, set, replicate, length, All, ok, err,
}
use aws_nitro_enclaves_acm.Common.Config
use aws_nitro_enclaves_acm.Common.Config.{
  init_new, Json, Io, Device, Slots, whole, short, load, load_device, save, expire_slots,
}
use aws_nitro_enclaves_acm.Rpc.Schema.{
  add_token, describe_device, remove_token, update_token, internal_error, access_denied,
  token_label_in_use,
}
use aws_nitro_enclaves_acm.Srv.Slots.Search.{lookup}
use aws_nitro_enclaves_acm.Srv.Worker.{handle}
use aws_nitro_enclaves_acm.Srv.Server.{Client, serve, run_server}
use aws_nitro_enclaves_acm.Srv.Server.Sound.{IsSound, GoodSlots, handle-IsSound, run_server-IsSound}
use aws_nitro_enclaves_acm.Srv.Server.Replies.{
  handle-error_unchanged, serve-stays_lost, handle-access_denied,
}
use aws_nitro_enclaves_acm.Srv.Registry.{view, MapStep, handle-MapStep}
use aws_nitro_enclaves_acm.Srv.Registry.RoundTrip
use aws_nitro_enclaves_acm.Srv.Registry.Describe.{Describes, handle-describe_device}
use aws_nitro_enclaves_acm.Srv.Registry.Update.{update-keeps_label}
use aws_nitro_enclaves_acm.Srv.Examples.{
  memory, memory_laws, echo, all_well, web_token, renamed_token, stored_token, free_text, web_text,
  add_test, refusal_test, free_device, free-GoodSlots, wrong_pin, other_label, web_description,
  describe_test, update_test, args_test', valid_test, load_test, find_test,
}

abbrev web_client : Client
web_client = record {
  accepted = true;
  timeouts = true;
  received = ok (add_token web_token);
  sent = λ r. ok tt;
  io = all_well;
}

start_test : (run_server memory echo all_well (web_client ∷ []) none).0 ≡ ok tt
unfolding run_server init_new
start_test = refl

free_text-IsSound : IsSound memory free_text
free_text-IsSound d h =
    let same : free_device ≡ d = ap (λ o. elim o [ none ↦ free_device | some x ↦ x ]) h in
    subst (λ x. GoodSlots x.slots) same free-GoodSlots

web_text-IsSound : IsSound memory web_text
web_text-IsSound = subst (IsSound memory) (ap (λ r. r.1) add_test) (
    handle-IsSound memory memory_laws echo all_well (add_token web_token) free_text
      free_text-IsSound)

-- Adding a token to a full set of free slots.
handle-MapStep_example :
    (slots slots' : Slots) × (load_device memory all_well.load_clock free_text
      ≡ ok (record { slots = slots }))
    × (memory.from_json (handle memory echo all_well (add_token web_token) free_text).1
        ≡ some (record { slots = slots' }))
    × MapStep echo 10 (add_token web_token) (view slots) (view slots')
handle-MapStep_example =
    handle-MapStep memory echo all_well (add_token web_token) free_text memory_laws
      free_text-IsSound refl (ap (λ r. r.0) add_test)

run_server-IsSound_example :
    IsSound memory (run_server memory echo all_well (web_client ∷ []) none).1
run_server-IsSound_example =
    run_server-IsSound memory memory_laws echo all_well (web_client ∷ []) none start_test

handle-error_unchanged_example :
    (handle memory echo all_well (add_token web_token) web_text).1 ≡ web_text
handle-error_unchanged_example =
    handle-error_unchanged memory echo all_well (add_token web_token) web_text token_label_in_use
      (ap (λ r. r.0) refusal_test.0) (λ e. cc)

serve-stays_lost_example :
    (memory.from_json (serve memory echo none (web_client ∷ [])) ≡ none)
    × ((handle memory echo all_well describe_device (serve memory echo none (web_client ∷ []))).0
        ≡ err internal_error)
serve-stays_lost_example =
    serve-stays_lost memory echo none (web_client ∷ []) all_well describe_device refl valid_test

handle-access_denied_example :
    handle memory echo all_well (remove_token (codes "acm") (codes "0000")) web_text
    ≡ (err access_denied, web_text)
handle-access_denied_example =
    handle-access_denied memory echo all_well (remove_token (codes "acm") (codes "0000")) web_text
      (set (replicate 128 none) 0 (some stored_token)) (codes "acm") (codes "0000") 0 stored_token
      refl load_test args_test' refl find_test wrong_pin

handle-describe_device_example :
    (slots : Slots) × (load_device memory all_well.load_clock web_text
      ≡ ok (record { slots = slots }))
    × (web_description.free_slot_count + length web_description.tokens ≡ 128)
    × All (Describes all_well.call_clock 0 slots) web_description.tokens
handle-describe_device_example =
    handle-describe_device memory echo all_well web_text web_description memory_laws
      web_text-IsSound describe_test

update-keeps_label_example :
    (slots slots' : Slots) × (new : Config.Token) × (load_device memory all_well.load_clock web_text
      ≡ ok (record { slots = slots }))
    × (memory.from_json
          (handle memory echo all_well
            (update_token (codes "acm") (codes "1234") renamed_token)
            web_text).1
        ≡ some (record { slots = slots' }))
    × (lookup (codes "acm") slots' ≡ some new)
    × (new.label ≡ codes "acm")
    × (new.pin ≡ codes "1234")
    × (lookup (codes "acm2") slots' ≡ lookup (codes "acm2") slots)
update-keeps_label_example =
    update-keeps_label memory echo all_well (codes "acm") (codes "1234") renamed_token web_text
      memory_laws web_text-IsSound refl update_test other_label
