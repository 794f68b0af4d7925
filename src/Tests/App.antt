-- ===== src/Tests/App.antt =====
-- The theorems on the app with a network in which only the second address answers.
use code_caller.Prelude.{ℕ, String, false, none, some, starts_with, if◌then◌else◌, ◌∷◌, suc}
use code_caller.Mobile.{
  Device, Phone, RequestInit, Response, AuthTokens, Fetched, answered, rejected, text, fetch_hub,
  other_urls, api_base_urls,
}
use code_caller.Mobile.Requests.{Reached, first_answer, fetch_hub_reaches}

abbrev fine : Response
fine = record { status = 200; text = "" }

abbrev second_only : String → RequestInit → ℕ → Fetched × ℕ
second_only url options n = (
  if starts_with url "http://100.92.64.11:3000"
      then answered fine
      else rejected "Network request failed",
  suc n,
)

instance abbrev device : Device
device = record {
  Network = ℕ;
  fetch = second_only;
  Other = Unit;
  json_parse = λ s. some (text s);
  json_stringify = λ o. "{}";
  refresh_body = λ t. t;
  login_body = λ email password. email;
  as_tokens = λ j. none;
  trim = λ s. s;
}

abbrev tokens : AuthTokens
tokens = record { access_token = "a"; refresh_token = "r" }

abbrev phone : Phone
phone = record {
  network = 0;
  tokens = some tokens;
  stored_token = some "r";
  active_url = "http://172.30.1.83:3000";
  password = "";
  busy = false;
  error = none;
}

abbrev listing : RequestInit
listing = record { method = "GET"; authorization = none; body = none }

fetch_hub_reaches_example :
    Reached "http://172.30.1.83:3000"
      (first_answer "/tasks" listing
        ("http://172.30.1.83:3000" ∷ other_urls "http://172.30.1.83:3000" api_base_urls)
        0)
      phone
      (fetch_hub "http://172.30.1.83:3000" "/tasks" listing phone)
fetch_hub_reaches_example = fetch_hub_reaches "http://172.30.1.83:3000" "/tasks" listing phone
