-- ===== src/Examples/Hooks.antt =====
-- Webhook endpoints and deliveries.
use nexa_fx_js.Base.{refl, true, false, some, [], ◌∷◌, Text, codes, arith}
use nexa_fx_js.Webhooks.{Endpoint, Delivery, State, failed, new_delivery}
use nexa_fx_js.Webhooks.Url.{Net, create_endpoint}
use nexa_fx_js.Webhooks.Url.Safe.{IsSafe, create_endpoint-IsSafe}
use nexa_fx_js.Webhooks.Processor.{response, failure, Run, Job, process_job}
use nexa_fx_js.Webhooks.Processor.Settled.{IsOver, process_job-IsOver}

abbrev paid : Text
paid = codes "paid"

abbrev hook : Endpoint
hook = record {
  id = 1;
  owner_id = 7;
  url = "https://shop.example/hook";
  events = paid ∷ [];
  is_active = true;
}

abbrev quiet : Endpoint
quiet = record hook { id = 2; is_active = false }

abbrev order : Delivery
order = new_delivery 5 1 paid 99

abbrev broken : Delivery
broken = record order { id = 6; status = failed; next_retry_at = some 500 }

abbrev hooks : State
hooks = record {
  endpoints = hook ∷ quiet ∷ [];
  deliveries = order ∷ broken ∷ [];
  queue = 5 ∷ [];
  next_id = 10;
}

-- One host, at a public address.
abbrev net : Net
net = record {
  hostname = λ url. some (codes "shop.example");
  is_ip = λ host. false;
  is_ipv4 = λ ip. true;
  resolve_4 = λ host. some (codes "93.184.216.34" ∷ []);
}

abbrev no_endpoints : State
no_endpoints = record { endpoints = []; deliveries = []; queue = []; next_id = 1 }

create_endpoint-IsSafe_example :
    IsSafe 10 net
      (create_endpoint 10 net
        (record { owner_id = 7; url = "https://shop.example/hook"; events = paid ∷ [] })
        no_endpoints).1
create_endpoint-IsSafe_example =
    create_endpoint-IsSafe 10 net
      (record { owner_id = 7; url = "https://shop.example/hook"; events = paid ∷ [] }) no_endpoints
      (record { safe = tt; bounded = λ owner. omega arith })

-- Two failures, then an answer.
abbrev refusing : Run
refusing = record { now = 2000; window_hours = 24; post = λ e d. failure (some 503) "busy" }

abbrev answering : Run
answering = record { now = 9000; window_hours = 24; post = λ e d. response 200 }

abbrev job : Job
job = record { delivery_id = 5; timestamp = 1000; attempts = some 3; attempts_made = 0 }

process_job-IsOver_example :
    IsOver 5 3 order (process_job (refusing ∷ refusing ∷ answering ∷ []) job hooks)
process_job-IsOver_example =
    process_job-IsOver (refusing ∷ refusing ∷ answering ∷ []) job order hooks refl (omega arith)
      (omega arith)
