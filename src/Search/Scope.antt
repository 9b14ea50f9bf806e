-- ===== src/Search/Scope.antt =====
-- The requests of services/search-projector/worker.py and the tenants that they are for.
use Prim.Native.String.{String, ◌++◌}
use signalchord.Prelude.{
  ◌≡◌, refl, subst, true, false, Bool, Option, none, some, Result, ok, err, bind-ok_inv, ◌>>=◌,
  lookup, if◌then◌else◌,
}
use signalchord.Kafka.World.{Exn}
use signalchord.Graph.Json.{Json, get}
use signalchord.Events.Values.{Runtime, item}
use signalchord.Entities.Worker.Process.{is_text}
use signalchord.Search.Project.{
  Storage, Request, put_entry, delete_by_query, load_text, get_or_null, article_request,
  takedown_request, entity_request, claim_request, some_request, request_for, request_of,
}

-- a property of the value, if there is one
abbrev pub Holds : {B : Type 0} → (B → Type 0) → Result Exn B → Type 0
Holds P (ok b) = P b
Holds P (err e) = Unit {0}

bind-Holds :
    {B D : Type 0} (P : D → Type 0) (r : Result Exn B) (f : B → Result Exn D)
    → ((b : B) → Holds P (f b))
    → Holds P (r >>= f)
bind-Holds P (ok b) f h = h b
bind-Holds P (err e) f h = tt

module _ {A V : Type 0} (rt : Runtime A V) (storage : Storage A) where
  open rt use {str_of}

  -- An entry that holds the tenant and whose identifier begins with it, or a deletion whose filter
  -- has the term that the tenant_id of an entry is the tenant.
  abbrev pub IsScopedTo : Json A → Request A → Type 0
  IsScopedTo tenant_id (put_entry index id body) =
      (get "tenant_id" body ≡ some tenant_id)
      × ((rest : String) × (id ≡ str_of tenant_id ++ (":" ++ rest)))
  IsScopedTo tenant_id (delete_by_query index filter) = lookup "tenant_id" filter ≡ some tenant_id

  -- if there is a request at all
  abbrev pub IsScopedIfAny : Json A → Option (Request A) → Type 0
  IsScopedIfAny tenant_id none = Unit {0}
  IsScopedIfAny tenant_id (some r) = IsScopedTo tenant_id r

  abbrev Good : Json A → Result Exn (Request A) → Type 0
  Good tenant_id r = Holds (IsScopedTo tenant_id) r

  article_request-IsScopedTo :
      (event payload tenant_id : Json A)
      → Good tenant_id (article_request rt storage event payload tenant_id)
  unfolding article_request
  article_request-IsScopedTo event payload tenant_id =
      let P = IsScopedTo tenant_id in
      bind-Holds P (item "clean_text_object_uri" payload) _ (λ uri.
        bind-Holds P (load_text rt storage uri) _ (λ content.
          bind-Holds P (item "document_id" payload) _ (λ document_id.
            bind-Holds P (get_or_null rt storage "source_id" payload) _ (λ source_id.
              bind-Holds P (get_or_null rt storage "title" payload) _ (λ title.
                bind-Holds P (get_or_null rt storage "canonical_url" payload) _ (λ canonical_url.
                  bind-Holds P (get_or_null rt storage "published_at" payload) _ (λ published_at.
                    bind-Holds P (get_or_null rt storage "occurred_at" event) _
                      (λ observed_at. (refl, (_, refl))))))))))

  takedown_request-IsScopedTo :
      (payload tenant_id : Json A) → Good tenant_id (takedown_request rt storage payload tenant_id)
  unfolding takedown_request
  takedown_request-IsScopedTo payload tenant_id =
      bind-Holds (IsScopedTo tenant_id) (item "source_id" payload) _ (λ source_id. refl)

  entity_request-IsScopedTo :
      (payload tenant_id : Json A) → Good tenant_id (entity_request rt storage payload tenant_id)
  unfolding entity_request
  entity_request-IsScopedTo payload tenant_id =
      let P = IsScopedTo tenant_id in
      bind-Holds P (item "entity_id" payload) _ (λ entity_id.
        bind-Holds P (item "display_name" payload) _ (λ display_name.
          bind-Holds P (item "entity_type" payload) _ (λ entity_type.
            bind-Holds P (item "confidence" payload) _ (λ confidence.
              bind-Holds P (item "status" payload) _ (λ status. (refl, (_, refl)))))))

  claim_request-IsScopedTo :
      (payload tenant_id : Json A) → Good tenant_id (claim_request rt storage payload tenant_id)
  unfolding claim_request
  claim_request-IsScopedTo payload tenant_id =
      let P = IsScopedTo tenant_id in
      bind-Holds P (item "claim_id" payload) _ (λ claim_id.
        bind-Holds P (item "cluster_id" payload) _ (λ cluster_id.
          bind-Holds P (item "proposition" payload) _ (λ proposition.
            bind-Holds P (item "stance" payload) _ (λ stance.
              bind-Holds P (item "confidence" payload) _ (λ confidence. (refl, (_, refl)))))))

  some_request-IsScopedIfAny :
      (tenant_id : Json A) (r : Result Exn (Request A))
      → Good tenant_id r
      → Holds (IsScopedIfAny tenant_id) (some_request rt storage r)
  some_request-IsScopedIfAny tenant_id (ok r) h = h
  some_request-IsScopedIfAny tenant_id (err e) h = tt

  if-Holds :
      (tenant_id : Json A) (b : Bool) (r s : Result Exn (Option (Request A)))
      → Holds (IsScopedIfAny tenant_id) r
      → Holds (IsScopedIfAny tenant_id) s
      → Holds (IsScopedIfAny tenant_id) (if b then r else s)
  if-Holds tenant_id true r s h g = h
  if-Holds tenant_id false r s h g = g

  request_for-IsScopedIfAny :
      (event payload event_type tenant_id : Json A)
      → Holds (IsScopedIfAny tenant_id) (request_for rt storage event payload event_type tenant_id)
  request_for-IsScopedIfAny event payload event_type t =
      if-Holds t (is_text "document.normalized.v1" event_type) _ _
        (some_request-IsScopedIfAny t _ (article_request-IsScopedTo event payload t))
        (if-Holds t (is_text "source.takedown.requested.v1" event_type) _ _
          (some_request-IsScopedIfAny t _ (takedown_request-IsScopedTo payload t))
          (if-Holds t (is_text "entity.resolved.v1" event_type) _ _
            (some_request-IsScopedIfAny t _ (entity_request-IsScopedTo payload t))
            (if-Holds t (is_text "claim.clustered.v1" event_type) _ _
              (some_request-IsScopedIfAny t _ (claim_request-IsScopedTo payload t)) tt)))

  -- the tenant of an event, if it has one
  bind_item-Holds :
      (event tenant_id : Json A) (f : Json A → Result Exn (Option (Request A)))
      → item "tenant_id" event ≡ ok tenant_id
      → Holds (IsScopedIfAny tenant_id) (f tenant_id)
      → Holds (IsScopedIfAny tenant_id) (item "tenant_id" event >>= f)
  bind_item-Holds event tenant_id f e h = rw (e) h

  -- Whatever request project makes of an event of a tenant, it is for that tenant: the entry holds
  -- the tenant and its identifier begins with it, and the filter of a deletion has the term that
  -- the tenant_id of an entry is the tenant.
  pub request_of-IsScopedTo :
      (event tenant_id : Json A)
      → item "tenant_id" event ≡ ok tenant_id
      → Holds (IsScopedIfAny tenant_id) (request_of rt storage event)
  unfolding request_of
  request_of-IsScopedTo event tenant_id e =
      bind-Holds (IsScopedIfAny tenant_id) (item "payload" event) _ (λ payload.
        bind-Holds (IsScopedIfAny tenant_id) (item "event_type" event) _ (λ event_type.
          bind_item-Holds event tenant_id (request_for rt storage event payload event_type) e
            (request_for-IsScopedIfAny event payload event_type tenant_id)))

  Holds-some :
      (tenant_id : Json A) (r : Result Exn (Option (Request A))) (o : Option (Request A))
      (q : Request A)
      → Holds (IsScopedIfAny tenant_id) r
      → r ≡ ok o
      → o ≡ some q
      → IsScopedTo tenant_id q
  Holds-some tenant_id r o q h e f =
      subst (IsScopedIfAny tenant_id) f (subst (Holds (IsScopedIfAny tenant_id)) e h)

  -- a request is for the tenant that the event has then
  pub request_of-IsScoped :
      (event : Json A) (o : Option (Request A))
      → request_of rt storage event ≡ ok o
      → (q : Request A) → o ≡ some q
      → (t : Json A) × IsScopedTo t q
  unfolding request_of
  request_of-IsScoped event o e q f =
      let (payload, _, e₁) = bind-ok_inv (item "payload" event) _ o e in
      let (event_type, _, e₂) = bind-ok_inv (item "event_type" event) _ o e₁ in
      let (tenant_id, has, e₃) = bind-ok_inv (item "tenant_id" event) _ o e₂ in
      (
        tenant_id,
        Holds-some tenant_id (request_for rt storage event payload event_type tenant_id) o q
            (request_for-IsScopedIfAny event payload event_type tenant_id) e₃ f,
      )
