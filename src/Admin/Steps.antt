-- ===== src/Admin/Steps.antt =====
-- internal/server/admin.go and groups.go: the steps of a handler. A refused request is one that is
-- answered with a status below 500.
use fleet_core.Prelude.{
  ℕ, ◌≤◌, ◌<◌, String, ◌≡◌, refl, ap, ◌∙◌, subst, Bool, true, false, Option, none, some, List, [],
  ◌∷◌, arith, if◌then◌else◌,
}
use fleet_core.Prelude.Exec.{Result, ok, err, Exec, pure, raise, continue, ◌>>=◌, guard}
use fleet_core.Api.{ModuleSpec, ModuleArtifact}
use fleet_core.Store.{StoreError, FileStore}
use fleet_core.Store
use fleet_core.Admin
use fleet_core.Server.{Server, on_store, new_id, time_now}
use fleet_core.Admin.{
  HttpError, bad_request, unknown, store_error, http_error, or_http, decoded, logged, check_module,
  validate_modules,
}

pub err-inj : {A : Type 0} (x e : HttpError) → ◌≡◌ {A = Result HttpError A} (err x) (err e) → x ≡ e
err-inj x e p = cc

module _ {A : Type 0} where
  -- The call leaves the store as it is.
  abbrev pub Reads : Exec Server HttpError A → Type 0
  Reads m = (s : Server) → (m s).1.store ≡ s.store

  -- Where the call fails, the fault is the server's.
  pub record NoRefusal (m : Exec Server HttpError A) : Type 0 where
    pub fault : (s : Server) (e : HttpError) → (m s).0 ≡ err e → 500 ≤ e.status

  -- Where the call fails and the fault is the request's, the store is as before.
  pub record Refuses (m : Exec Server HttpError A) : Type 0 where
    pub same :
        (s : Server) (e : HttpError) → (m s).0 ≡ err e → e.status < 500 → (m s).1.store ≡ s.store

  Reads-Refuses : (m : Exec Server HttpError A) → Reads m → Refuses m
  Reads-Refuses m h = record { same = λ s e p l. h s }

  NoRefusal-Refuses : (m : Exec Server HttpError A) → NoRefusal m → Refuses m
  NoRefusal-Refuses m h = record { same = λ s e p l. absurd (omega (arith, h.fault s e p)) }

module _ {A B : Type 0} where
  continue-Refuses :
      (r : Result HttpError A) (f : A → Exec Server HttpError B) (s s' : Server)
      → s'.store ≡ s.store
      → ((a : A) → Refuses (f a))
      → (e : HttpError) → (continue r f s').0 ≡ err e
      → e.status < 500
      → (continue r f s').1.store ≡ s.store
  continue-Refuses (ok a) f s s' h k e p l = (k a).same s' e p l ∙ h
  continue-Refuses (err x) f s s' h k e p l = h

  bind-Refuses :
      (m : Exec Server HttpError A) (f : A → Exec Server HttpError B)
      → Reads m
      → ((a : A) → Refuses (f a))
      → Refuses (m >>= f)
  bind-Refuses m f h k = record {
    same = λ s e p l. continue-Refuses (m s).0 f s (m s).1 (h s) k e p l;
  }

  continue-NoRefusal :
      (r : Result HttpError A) (f : A → Exec Server HttpError B) (s : Server)
      → ((e : HttpError) → r ≡ err e → 500 ≤ e.status)
      → ((a : A) → NoRefusal (f a))
      → (e : HttpError) → (continue r f s).0 ≡ err e
      → 500 ≤ e.status
  continue-NoRefusal (ok a) f s h k e p = (k a).fault s e p
  continue-NoRefusal (err x) f s h k e p = h e (ap err (err-inj x e p))

  pub bind-NoRefusal :
      (m : Exec Server HttpError A) (f : A → Exec Server HttpError B)
      → NoRefusal m
      → ((a : A) → NoRefusal (f a))
      → NoRefusal (m >>= f)
  bind-NoRefusal m f h k = record {
    fault = λ s e p. continue-NoRefusal (m s).0 f (m s).1 (h.fault s) k e p;
  }

  continue-Reads :
      (r : Result HttpError A) (f : A → Exec Server HttpError B) (s s' : Server)
      → s'.store ≡ s.store
      → ((a : A) → Reads (f a))
      → (continue r f s').1.store ≡ s.store
  continue-Reads (ok a) f s s' h k = k a s' ∙ h
  continue-Reads (err x) f s s' h k = h

  bind-Reads :
      (m : Exec Server HttpError A) (f : A → Exec Server HttpError B)
      → Reads m
      → ((a : A) → Reads (f a))
      → Reads (m >>= f)
  bind-Reads m f h k s = continue-Reads (m s).0 f s (m s).1 (h s) k

decoded-Reads : {R : Type 0} (e : HttpError) (body : Option R) → Reads (decoded e body)
decoded-Reads e none s = refl
decoded-Reads e (some r) s = refl

guard-Reads : (b : Bool) (e : HttpError) → Reads {A = Unit {0}} (guard b e)
guard-Reads true e s = refl
guard-Reads false e s = refl

or_http-Reads :
    {A : Type 0} (e : HttpError) (m : Exec FileStore StoreError A)
    → ((fs : FileStore) → (m fs).1 ≡ fs)
    → Reads (or_http e (on_store m))
or_http-Reads e m h s = h s.store

fail_with-eq :
    {A : Type 0} (r : Result StoreError A) (c e : HttpError) → Admin.fail_with c r ≡ err e → c ≡ e
fail_with-eq (ok a) c e p = cc
fail_with-eq (err x) c e p = cc

pub or_http-NoRefusal :
    {A : Type 0} (n : ℕ) (t : String) (m : Exec Server StoreError A)
    → 500 ≤ n
    → NoRefusal (or_http (http_error n t) m)
or_http-NoRefusal n t m h = record {
  fault = λ s e p.
      subst (λ (x : HttpError). 500 ≤ x.status) (fail_with-eq (m s).0 (http_error n t) e p) h;
}

pub or_not_found-same :
    {A : Type 0} (o : Option A) (fs : FileStore) → (Store.or_not_found o fs).1 ≡ fs
or_not_found-same none fs = refl
or_not_found-same (some a) fs = refl

check-Reads : (spec : ModuleSpec) → Reads (check_module spec)
check-Reads spec s = check (Admin.get_module spec.name spec.version s.store).0
  where
    check :
        (r : Result StoreError ModuleArtifact)
        → ◌≡◌ {A = FileStore}
            (elim r as (λ x. Result HttpError (Unit {0}) × Server) [
              | ok a ↦ (ok tt, s)
              | err x ↦ (err (Admin.module_error spec x), s)
            ]).1.store
            s.store
    check (ok a) = refl
    check (err x) = refl

pub validate-Reads : (specs : List ModuleSpec) → Reads (validate_modules specs)
unfolding validate_modules
validate-Reads [] = λ s. refl
validate-Reads (spec ∷ specs) =
    bind-Reads (check_module spec) (λ _. validate_modules specs) (check-Reads spec)
      (λ _. validate-Reads specs)

pub logged-NoRefusal : {A : Type 0} (m : Exec Server StoreError A) → NoRefusal (logged m)
logged-NoRefusal m = record { fault = λ s e p. absurd (cc p) }

pub pure-NoRefusal : {A : Type 0} (a : A) → NoRefusal (pure a)
pure-NoRefusal a = record { fault = λ s e p. absurd (cc p) }

new_id-Reads : Reads new_id
unfolding new_id
new_id-Reads s = refl

time_now-Reads : Reads time_now
unfolding time_now
time_now-Reads s = refl

-- The steps of a handler: those before it writes, and the write with which the rest begins.
module _ {B : Type 0} where
  pub after_decoded :
      {R : Type 0} (c : HttpError) (body : Option R) (f : R → Exec Server HttpError B)
      → ((r : R) → Refuses (f r))
      → Refuses (decoded c body >>= f)
  after_decoded c body f h = bind-Refuses (decoded c body) f (decoded-Reads c body) h

  pub after_guard :
      (b : Bool) (c : HttpError) (f : Unit {0} → Exec Server HttpError B)
      → Refuses (f tt)
      → Refuses (guard b c >>= f)
  after_guard b c f h = bind-Refuses (guard b c) f (guard-Reads b c) (λ _. h)

  pub after_read :
      {A : Type 0} (c : HttpError) (m : Exec FileStore StoreError A)
      (f : A → Exec Server HttpError B)
      → ((fs : FileStore) → (m fs).1 ≡ fs)
      → ((a : A) → Refuses (f a))
      → Refuses (or_http c (on_store m) >>= f)
  after_read c m f e h = bind-Refuses (or_http c (on_store m)) f (or_http-Reads c m e) h

  pub after_validate :
      (specs : List ModuleSpec) (f : Unit {0} → Exec Server HttpError B)
      → Refuses (f tt)
      → Refuses (validate_modules specs >>= f)
  after_validate specs f h = bind-Refuses (validate_modules specs) f (validate-Reads specs) (λ _. h)

  pub after_new_id :
      (f : String → Exec Server HttpError B)
      → ((id : String) → Refuses (f id))
      → Refuses (new_id >>= f)
  after_new_id f h = bind-Refuses new_id f new_id-Reads h

  pub after_now :
      (f : ℕ → Exec Server HttpError B) → ((now : ℕ) → Refuses (f now)) → Refuses (time_now >>= f)
  after_now f h = bind-Refuses time_now f time_now-Reads h

  pub saves :
      {A : Type 0} (n : ℕ) (t : String) (m : Exec Server StoreError A)
      (f : A → Exec Server HttpError B)
      → 500 ≤ n
      → ((a : A) → NoRefusal (f a))
      → Refuses (or_http (http_error n t) m >>= f)
  saves n t m f l h =
      NoRefusal-Refuses (or_http (http_error n t) m >>= f)
        (bind-NoRefusal (or_http (http_error n t) m) f (or_http-NoRefusal n t m l) h)

  pub then_logs :
      {A : Type 0} (m : Exec Server StoreError A) (b : B) → NoRefusal (logged m >>= λ _. pure b)
  then_logs m b = record { fault = λ s e p. absurd (cc p) }

pub branch-Refuses :
    {B : Type 0} (b : Bool) (m n : Exec Server HttpError B)
    → Refuses m
    → Refuses n
    → Refuses (if b then m else n)
branch-Refuses true m n h k = h
branch-Refuses false m n h k = k

pub raise-Refuses : {B : Type 0} (c : HttpError) → Refuses {A = B} (raise c)
raise-Refuses c = record { same = λ s e p l. refl }
