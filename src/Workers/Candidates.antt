-- ===== src/Workers/Candidates.antt =====
-- The candidates for a dispatch (hub-api/src/workers/worker-registry.service.ts,
-- `getDispatchCandidates`): which they are, and in which order they are tried.
use mathlib.Core.Path.{subst}
use code_caller.Prelude.{
  ℕ, contains, ◌↔◌, ◌≢◌, sym, ==_refl, ◌≡◌, refl, ◌⊎◌, inl, inr, Bool, true, false, some, List, [],
  ◌∷◌, map, arith, ◌==◌, In, In-map, map-In, insert, sort, sort-In, In-sort, All, All-insert,
  Bool-cases, Option-cases,
}
use code_caller.Schema.{WorkerType, WorkerProvider, Server, WorkerProfile, online, same_provider}
use code_caller.Platform.{Platform}
use code_caller.Hub.{Hub, ok}
use code_caller.Workers.{
  WorkerDispatchCandidate, get_dispatch_candidates, candidates_in, profile_fits, to_candidate,
  by_server, not_after,
}

module _ ⦃pf : Platform⦄ where
  -- What makes a candidate of an owner: an enabled profile of the provider at a server of theirs
  -- that is online and not excluded.
  pub record IsCandidate (provider : WorkerProvider) (owner_id : ℕ) (excluded : List ℕ) (h : Hub)
      (c : WorkerDispatchCandidate) : Type 0 where
    pub row : ℕ
    pub profile : WorkerProfile
    pub server : Server
    pub profile_found : pf.profiles.find_unique row h.profiles ≡ some profile
    pub server_found : pf.servers.find_unique c.server_id h.servers ≡ some server
    pub at_server : profile.server_id ≡ c.server_id
    pub named : c.server_name ≡ server.name
    pub profile_named : c.profile_name ≡ profile.profile_name
    pub provided : c.provider ≡ profile.provider
    pub enabled : profile.enabled ≡ true
    pub of_provider : same_provider profile.provider provider ≡ true
    pub owned : server.owner_id ≡ owner_id
    pub is_up : server.status ≡ online
    pub not_excluded : contains c.server_id excluded ≡ false

  profile_fits-IsCandidate :
      (provider : WorkerProvider) (owner_id : ℕ) (excluded : List ℕ) (h : Hub) (i : ℕ)
      (p : WorkerProfile)
      → pf.profiles.find_unique i h.profiles ≡ some p
      → profile_fits provider owner_id excluded h i p ≡ true
      → IsCandidate provider owner_id excluded h (to_candidate h (i, p))
  profile_fits-IsCandidate provider owner_id excluded h i p found fits =
      elim (Option-cases (pf.servers.find_unique p.server_id h.servers)) [
        | inl gone ↦ absurd (ground arith)
        | inr (s, e) ↦ record {
          row = i;
          profile = p;
          server = s;
          profile_found = found;
          server_found = e;
          at_server = refl;
          named = ground arith;
          profile_named = refl;
          provided = refl;
          enabled = ground arith;
          of_provider = ground arith;
          owned = ground arith;
          is_up = ground arith;
          not_excluded = ground arith;
        }
      ]

  IsCandidate-profile_fits :
      (provider : WorkerProvider) (owner_id : ℕ) (excluded : List ℕ) (h : Hub)
      (c : WorkerDispatchCandidate) (k : IsCandidate provider owner_id excluded h c)
      → (profile_fits provider owner_id excluded h k.row k.profile ≡ true)
        × (to_candidate h (k.row, k.profile) ≡ c)
  IsCandidate-profile_fits provider owner_id excluded h c k =
      (ground (arith, ==_refl owner_id), ground arith)

  -- The list that is tried is exactly the candidates.
  pub candidates_in-IsCandidate :
      (provider : WorkerProvider) (owner_id preferred : ℕ) (excluded : List ℕ) (h : Hub)
      (c : WorkerDispatchCandidate)
      → In c (candidates_in provider owner_id preferred excluded h)
        ↔ IsCandidate provider owner_id excluded h c
  unfolding candidates_in
  candidates_in-IsCandidate provider owner_id preferred excluded h c = (to, from)
    where
      fits : ℕ → WorkerProfile → Bool
      fits = profile_fits provider owner_id excluded h

      to :
          In c (candidates_in provider owner_id preferred excluded h)
          → IsCandidate provider owner_id excluded h c
      to m =
          let (x, k, e) = map-In (to_candidate h) c _ (sort-In (not_after preferred) c _ m) in
          let (i, p) = x in
          let (found, ok_fits) = pf.profiles.find_many_sound by_server fits h.profiles i p k in
          subst (IsCandidate provider owner_id excluded h) (sym e)
            (profile_fits-IsCandidate provider owner_id excluded h i p found ok_fits)

      from :
          IsCandidate provider owner_id excluded h c
          → In c (candidates_in provider owner_id preferred excluded h)
      from k =
          let (ok_fits, same) = IsCandidate-profile_fits provider owner_id excluded h c k in
          let there =
            pf.profiles.find_many_complete by_server fits h.profiles k.row k.profile k.profile_found
              ok_fits in
          In-sort (not_after preferred) c _ (
            subst
              (λ x. In x (map (to_candidate h) (pf.profiles.find_many by_server fits h.profiles)))
              same (In-map (to_candidate h) _ _ there))

  -- Those at the preferred server stand before all others.
  abbrev pub PreferredFirst : ℕ → List WorkerDispatchCandidate → Type 0
  PreferredFirst preferred [] = Unit
  PreferredFirst preferred (c ∷ l) =
      ((c.server_id ≡ preferred) ⊎ All (λ (d : WorkerDispatchCandidate). d.server_id ≢ preferred) l)
      × PreferredFirst preferred l

  insert-PreferredFirst :
      (preferred : ℕ) (c : WorkerDispatchCandidate) (l : List WorkerDispatchCandidate)
      → PreferredFirst preferred l
      → PreferredFirst preferred (insert (not_after preferred) c l)
  unfolding insert
  insert-PreferredFirst preferred c [] h = (inr tt, tt)
  insert-PreferredFirst preferred c (b ∷ l) h =
      let ih = insert-PreferredFirst preferred c l h.1 in
      elim (Bool-cases (not_after preferred c b)) [
        | inl q ↦ rw q (stays q, h)
        | inr q ↦ rw q (moves q, ih)
      ]
    where
      tail_of :
          b.server_id ≢ preferred → All (λ (d : WorkerDispatchCandidate). d.server_id ≢ preferred) l
      tail_of ne = elim h.0 [ inl e ↦ absurd (ne e) | inr rest ↦ rest ]

      stays :
          not_after preferred c b ≡ true
          → (c.server_id ≡ preferred)
            ⊎ All (λ (d : WorkerDispatchCandidate). d.server_id ≢ preferred) (b ∷ l)
      stays q = elim (Bool-cases (c.server_id == preferred)) [
        | inl mine ↦ inl (ground arith)
        | inr other ↦ let ne : b.server_id ≢ preferred = ground arith in inr (ne, tail_of ne)
      ]

      moves :
          not_after preferred c b ≡ false
          → (b.server_id ≡ preferred)
            ⊎ All
                (λ (d : WorkerDispatchCandidate). d.server_id ≢ preferred)
                (insert (not_after preferred) c l)
      moves q = elim (Bool-cases (b.server_id == preferred)) [
        | inl first ↦ inl (ground arith)
        | inr other ↦
            let ne : b.server_id ≢ preferred = ground arith in
            let nc : c.server_id ≢ preferred = ground arith in
            inr (
              All-insert (λ (d : WorkerDispatchCandidate). d.server_id ≢ preferred)
                (not_after preferred) c l nc (tail_of ne))
      ]

  sort-PreferredFirst :
      (preferred : ℕ) (l : List WorkerDispatchCandidate)
      → PreferredFirst preferred (sort (not_after preferred) l)
  unfolding sort
  sort-PreferredFirst preferred [] = tt
  sort-PreferredFirst preferred (c ∷ l) =
      insert-PreferredFirst preferred c (sort (not_after preferred) l)
        (sort-PreferredFirst preferred l)

  candidates_in-PreferredFirst :
      (provider : WorkerProvider) (owner_id preferred : ℕ) (excluded : List ℕ) (h : Hub)
      → PreferredFirst preferred (candidates_in provider owner_id preferred excluded h)
  unfolding candidates_in
  candidates_in-PreferredFirst provider owner_id preferred excluded h =
      sort-PreferredFirst preferred _

  -- For the worker type codex and a preferred server that exists, the candidates of a dispatch
  -- are exactly the enabled codex profiles at the servers of the preferred server's owner that
  -- are marked online and are not excluded; those at the preferred server stand first, and
  -- nothing changes.
  pub get_dispatch_candidates_exact :
      (preferred : ℕ) (excluded : List ℕ) (h : Hub) {s : Server}
      → pf.servers.find_unique preferred h.servers ≡ some s
      → (l : List WorkerDispatchCandidate) × (get_dispatch_candidates WorkerType.codex preferred
            excluded h
          ≡ (ok l, h))
        × ((c : WorkerDispatchCandidate)
            → In c l ↔ IsCandidate WorkerProvider.codex s.owner_id excluded h c)
        × PreferredFirst preferred l
  unfolding get_dispatch_candidates
  get_dispatch_candidates_exact preferred excluded h {s} e = (
    candidates_in WorkerProvider.codex s.owner_id preferred excluded h,
    ground arith,
    candidates_in-IsCandidate WorkerProvider.codex s.owner_id preferred excluded h,
    candidates_in-PreferredFirst WorkerProvider.codex s.owner_id preferred excluded h,
  )
