-- ===== src/Ingest/Handler/Relayed.antt =====
-- internal/ingest/ingest.go (`writeForwarded`): what the provider is told of the app's answer.
use mathlib.Core.Path.{subst⁻¹}
use hooklens.Base.{
  ◌≡◌, refl, Bool, true, false, not, ◌&&◌, none, some, List, [], ◌∷◌, ◌++◌, Bytes, codes, bytes_eq,
  bytes_eq_refl, append-nil, bytes_eq_iff, keep, leb, if◌then◌else◌, arith, Bool-cases, All,
  All-append, All-keep, inl, inr,
}
use hooklens.Tunnel.Protocol
use hooklens.Tunnel.Protocol.{Response}
use hooklens.Ingest.Handler.{
  Library, Reply, app_body, header_set, is_hop_by_hop, relayed, relayed_status, relayed_body,
  write_forwarded,
}

-- The contents under a name, in their order.
abbrev pub named : Bytes → List (Bytes × Bytes) → List Bytes
named key [] = []
named key (h ∷ rest) = if bytes_eq h.0 key then h.1 ∷ named key rest else named key rest

named-append :
    (key : Bytes) (xs ys : List (Bytes × Bytes))
    → named key (xs ++ ys) ≡ named key xs ++ named key ys
named-append key [] ys = refl
named-append key (x ∷ xs) ys = ground (arith, named-append key xs ys)

named-others :
    (key name : Bytes) (hs : List (Bytes × Bytes))
    → bytes_eq name key ≡ false
    → named key (keep (λ h. not (bytes_eq h.0 name)) hs) ≡ named key hs
named-others key name [] e = refl
named-others key name (x ∷ hs) e =
    ground (arith, named-others key name hs e, bytes_eq_iff x.0 name, bytes_eq_iff x.0 key, e)

named-none :
    (key : Bytes) (hs : List (Bytes × Bytes))
    → named key (keep (λ h. not (bytes_eq h.0 key)) hs) ≡ []
named-none key [] = refl
named-none key (x ∷ hs) = ground (arith, named-none key hs)

named-header_set :
    (key name v : Bytes) (hs : List (Bytes × Bytes))
    → named key (header_set name v hs) ≡ (if bytes_eq name key then v ∷ [] else named key hs)
named-header_set key name v hs =
    let others = keep (λ h. not (bytes_eq h.0 name)) hs in
    elim (Bool-cases (bytes_eq name key)) [
      | inl same ↦
          let is : name ≡ key = (bytes_eq_iff name key).0 same in
          subst⁻¹
            (λ n. named key (header_set n v hs) ≡ (if bytes_eq n key then v ∷ [] else named key hs))
            is
            (ground (
              arith,
              named-append key (keep (λ h. not (bytes_eq h.0 key)) hs) ((key, v) ∷ []),
              named-none key hs,
              bytes_eq_refl key,
            ))
      | inr other ↦ ground (
        arith,
        other,
        append-nil (named key hs),
        named-append key others ((name, v) ∷ []),
        named-others key name hs other,
      )
    ]

module _ (lib : Library) where
  -- The contents of the app's headers under a canonical name, but for those of one hop.
  abbrev pub passed_back : Bytes → List Protocol.Header → List Bytes
  passed_back key [] = []
  passed_back key (h ∷ rest) =
      if not (is_hop_by_hop lib h.name) && bytes_eq (lib.canonical h.name) key
      then h.content ∷ passed_back key rest
      else passed_back key rest

  -- What the app answered: its status, or a 502 for one that HTTP does not know; its decoded body; and
  -- under each name its headers, but that the capture's id and the mark of the delivery stand alone.
  unfoldable pub Answered : Response → Bytes → Reply → Type 0
  Answered resp id reply =
      (reply.status ≡ (if leb 100 resp.status && leb resp.status 599 then resp.status else 502))
      × (reply.body ≡ app_body (elim (lib.decode resp.body_b64) [ none ↦ [] | some b ↦ b ]))
      × ((key : Bytes)
          → named key reply.headers ≡ (
              if bytes_eq (codes "X-Hooklens-Id") key
              then id ∷ []
              else if bytes_eq (codes "X-Hooklens-Forward") key
              then codes "delivered" ∷ []
              else passed_back key resp.headers))

  relayed-passed_back :
      (key : Bytes) (hs : List Protocol.Header) → named key (relayed lib hs) ≡ passed_back key hs
  unfolding relayed
  relayed-passed_back key [] = refl
  relayed-passed_back key (h ∷ rest) = ground (arith, relayed-passed_back key rest)

  pub write_forwarded-Answered :
      (resp : Response) (id : Bytes) → Answered resp id (write_forwarded lib resp id)
  unfolding Answered write_forwarded relayed_status relayed_body
  write_forwarded-Answered resp id = (
    ground arith,
    refl,
    λ key.
        let mark =
          header_set (codes "X-Hooklens-Forward") (codes "delivered") (relayed lib resp.headers) in
        ground (
          arith,
          named-header_set key (codes "X-Hooklens-Id") id mark,
          named-header_set key (codes "X-Hooklens-Forward") (codes "delivered")
              (relayed lib resp.headers),
          relayed-passed_back key resp.headers,
        ),
  )

  -- The headers whose name is some spelling of X-Hooklens-Id.
  abbrev pub ids : List (Bytes × Bytes) → List (Bytes × Bytes)
  ids hs = keep (λ h. bytes_eq (lib.canonical h.0) (codes "X-Hooklens-Id")) hs

  ids-append : (xs ys : List (Bytes × Bytes)) → ids (xs ++ ys) ≡ ids xs ++ ids ys
  ids-append [] ys = refl
  ids-append (x ∷ xs) ys = ground (arith, ids-append xs ys)

  -- No name of the list is another spelling of a canonical one.
  abbrev Canonical : List (Bytes × Bytes) → Type 0
  Canonical hs = All (λ h. lib.canonical h.0 ≡ h.0) hs

  relayed-Canonical :
      ((s : Bytes) → lib.canonical (lib.canonical s) ≡ lib.canonical s)
      → (hs : List Protocol.Header) → Canonical (relayed lib hs)
  unfolding relayed
  relayed-Canonical twice [] = tt
  relayed-Canonical twice (h ∷ rest) =
      All_if (is_hop_by_hop lib h.name) _ _ (relayed-Canonical twice rest)
        (twice h.name, relayed-Canonical twice rest)
    where
      All_if :
          (test : Bool) (xs ys : List (Bytes × Bytes))
          → Canonical xs
          → Canonical ys
          → Canonical (if test then xs else ys)
      All_if true xs ys p q = p
      All_if false xs ys p q = q

  ids-none :
      (hs : List (Bytes × Bytes))
      → Canonical hs
      → ids (keep (λ h. not (bytes_eq h.0 (codes "X-Hooklens-Id"))) hs) ≡ []
  ids-none [] c = refl
  ids-none (h ∷ hs) c = ground (arith, c.0, ids-none hs c.1)

  header_set-Canonical :
      (name v : Bytes) (hs : List (Bytes × Bytes))
      → lib.canonical name ≡ name
      → Canonical hs
      → Canonical (header_set name v hs)
  header_set-Canonical name v hs e c =
      All-append _ (keep (λ h. not (bytes_eq h.0 name)) hs) ((name, v) ∷ [])
        (All-keep _ (λ h. not (bytes_eq h.0 name)) hs c) (e, tt)

  -- Where canonical names stay as they are and the two that the server sets are canonical, a relayed
  -- response has one header whose name is a spelling of X-Hooklens-Id, with the capture's id, whatever
  -- headers the app sent and however it spelled them.
  pub genuine_id :
      (resp : Response) (id : Bytes)
      → ((s : Bytes) → lib.canonical (lib.canonical s) ≡ lib.canonical s)
      → lib.canonical (codes "X-Hooklens-Id") ≡ codes "X-Hooklens-Id"
      → lib.canonical (codes "X-Hooklens-Forward") ≡ codes "X-Hooklens-Forward"
      → ids (write_forwarded lib resp id).headers ≡ (codes "X-Hooklens-Id", id) ∷ []
  unfolding write_forwarded
  genuine_id resp id twice own mark =
      let app = relayed lib resp.headers in
      let marked = header_set (codes "X-Hooklens-Forward") (codes "delivered") app in
      let names =
        header_set-Canonical (codes "X-Hooklens-Forward") (codes "delivered") app mark
          (relayed-Canonical twice resp.headers) in
      ground (
        arith,
        ids-append (keep (λ h. not (bytes_eq h.0 (codes "X-Hooklens-Id"))) marked)
            ((codes "X-Hooklens-Id", id) ∷ []),
        ids-none marked names,
        own,
        bytes_eq_refl (codes "X-Hooklens-Id"),
      )
