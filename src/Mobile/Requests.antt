-- ===== src/Mobile/Requests.antt =====
-- Which address the app talks to (`fetchHub` in mobile-app/App.tsx), and when it renews its
-- session.
use code_caller.Prelude.{
  ◌≡◌, refl, String, ◌<>◌, false, Option, none, some, List, [], ◌∷◌, ◌==◌, arith, str_eq,
  if◌then◌else◌, Bool-cases, inl, inr,
}
use code_caller.Mobile.{
  Device, Phone, RequestInit, Response, AuthTokens, Fetched, Outcome, done, thrown, answered,
  rejected, activate, fetch_from, fetch_hub, other_urls, api_base_urls, request, authorized,
}

module _ ⦃dev : Device⦄ where
  -- What the network does to a call that goes to each address in turn: the answer of the first
  -- that answers, with that address, or the last error.
  abbrev pub first_answer :
      String → RequestInit → List String → dev.Network → Option (String × Response) × dev.Network
  first_answer path options [] n = (none, n)
  first_answer path options (u ∷ l) n =
      let (r, n') = dev.fetch (u <> path) options n in
      elim r [
        | answered response ↦ (some (u, response), n')
        | rejected e ↦ first_answer path options l n'
      ]

  -- What a call leaves behind, by the answer that it got.
  abbrev pub Reached :
      String → Option (String × Response) × dev.Network → Phone → Outcome Response × Phone → Type 0
  Reached active (none, n) p (r, p') =
      ((e : String) × (r ≡ thrown e)) × (p' ≡ record p { network = n })
  Reached active (some (u, response), n) p (r, p') =
      (r ≡ done response)
      × (p' ≡ record p { network = n; active_url = if str_eq u active then p.active_url else u })

  Reached-network :
      (active : String) (x : Option (String × Response) × dev.Network) (p : Phone) (n : dev.Network)
      (y : Outcome Response × Phone)
      → Reached active x (record p { network = n }) y
      → Reached active x p y
  Reached-network active (none, m) p n y k = k
  Reached-network active (some (u, response), m) p n y k = k

  activate-url :
      (active u : String) (p : Phone) (n : dev.Network)
      → activate active u (record p { network = n })
        ≡ record p { network = n; active_url = if str_eq u active then p.active_url else u }
  activate-url active u p n = elim (Bool-cases (str_eq u active)) [
    | inl same ↦ ground (arith, same)
    | inr other ↦ ground (arith, other)
  ]

  fetch_from-Reached :
      (active path : String) (options : RequestInit) (l : List String) (last : Option String)
      (p : Phone)
      → Reached active
          (first_answer path options l p.network)
          p
          (fetch_from active path l options last p)
  unfolding fetch_from
  fetch_from-Reached active path options [] none p =
      ((path <> " failed: Hub API is unreachable", refl), refl)
  fetch_from-Reached active path options [] (some e) p = ((e, refl), refl)
  fetch_from-Reached active path options (u ∷ l) last p =
      go (dev.fetch (u <> path) options p.network)
        (λ e q. fetch_from-Reached active path options l (some e) q)
    where
      go :
          (x : Fetched × dev.Network)
          → ((e : String) (q : Phone)
              → Reached active
                  (first_answer path options l q.network)
                  q
                  (fetch_from active path l options (some e) q))
          → Reached active
              (elim x.0 [
                | answered response ↦ (some (u, response), x.1)
                | rejected e ↦ first_answer path options l x.1
              ])
              p
              (elim x.0 [
                | answered response ↦
                    (done response, activate active u (record p { network = x.1 }))
                | rejected e ↦
                    fetch_from active path l options (some e) (record p { network = x.1 })
              ])
      go (answered response, n) rest = (refl, activate-url active u p n)
      go (rejected e, n) rest =
          Reached-network active (first_answer path options l n) p n _
            (rest e (record p { network = n }))

  -- A call of the app goes to the address that its callback keeps and then to the others in turn
  -- until one answers: that answer is returned, and its address becomes the active one unless it
  -- is the one that the callback keeps, where the active address stays; if none answers the call
  -- fails and the active address stays. Nothing else but the network changes.
  pub fetch_hub_reaches :
      (active path : String) (options : RequestInit) (p : Phone)
      → Reached active
          (first_answer path options (active ∷ other_urls active api_base_urls) p.network)
          p
          (fetch_hub active path options p)
  unfolding fetch_hub
  fetch_hub_reaches active path options p =
      fetch_from-Reached active path options (active ∷ other_urls active api_base_urls) none p

  abbrev pub sends :
      String → String → RequestInit → Phone → Option (String × Response) × dev.Network
  sends active path options p =
      first_answer path options (active ∷ other_urls active api_base_urls) p.network

module _ ⦃dev : Device⦄ (active path : String) (options : RequestInit) (tokens : AuthTokens)
    (p : Phone) {u : String} {response : Response} {n : dev.Network}
    (answer : sends active path (authorized options tokens.access_token) p
      ≡ (some (u, response), n))
    (accepted : (response.status == 401) ≡ false) where
  -- A request of the app whose first answer has a status other than 401 is made once and leaves
  -- the session as it is, whatever else is answered.
  pub request_keeps_session :
      (request (some tokens) active path options p).1
      ≡ record p { network = n; active_url = if str_eq u active then p.active_url else u }
  unfolding request
  request_keeps_session =
      let reached = fetch_hub_reaches active path (authorized options tokens.access_token) p in
      ground (arith, answer, reached)
