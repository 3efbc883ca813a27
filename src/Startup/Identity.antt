-- ===== src/Startup/Identity.antt =====
-- cmd/fleet-agent/main.go: an agent that has an identity keeps it.
use fleet_core.Prelude.{
  ◌≡◌, refl, sym, ap, ◌∙◌, true, none, some, List, [], ◌∷◌, map, Bool-cases, inl, inr, is_some,
  Option-cases, ◌=s=◌, arith, if◌then◌else◌,
}
use fleet_core.Prelude.Bytes.{Text}
use fleet_core.GoMap.Laws.{get-put_self}
use fleet_core.Agent.Enrollment.{
  Files, Writes, write_file, enrolled, FirstContact, RenewalWorld, maybe_renew_cert,
}
use fleet_core.Startup.{World, Flags, exit, run, run_command, restarts}

-- A write of cert.pem, whether it works or not, takes no identity away.
write_file-enrolled :
    (writes : Writes) (content : Text) (files : Files)
    → enrolled files ≡ true
    → enrolled (write_file writes "cert.pem" content files).1 ≡ true
unfolding enrolled write_file
write_file-enrolled writes content files h = elim (Option-cases (writes "cert.pem")) [
  | inl e ↦ rw (e, write_file) (ap is_some (get-put_self "cert.pem" content files))
  | inr (none, e) ↦ rw (e, write_file) h
  | inr (some part, e) ↦ rw (e, write_file) (ap is_some (get-put_self "cert.pem" part files))
]

maybe_renew_cert-enrolled :
    (w : RenewalWorld) (files : Files)
    → enrolled files ≡ true
    → enrolled (maybe_renew_cert w files) ≡ true
unfolding maybe_renew_cert
maybe_renew_cert-enrolled w files h = grind (arith, write_file-enrolled)

run-enrolled :
    (w : World) (f : Flags) (files : Files)
    → enrolled files ≡ true
    → enrolled (run w f files).1 ≡ true
unfolding run
run-enrolled w f files h = ground (arith, h, maybe_renew_cert-enrolled w.renewal files h)

run_command-runs :
    (w : World) (f : Flags) (files : Files)
    → enrolled files ≡ true
    → run_command w f files ≡ (if f.server =s= "" then (exit 2, files) else run w f files)
unfolding run_command
run_command-runs w f files h = rw h refl

-- The same start without a token, and with another control plane to enroll at.
abbrev pub unasked : FirstContact → World × Flags → World × Flags
unasked other (w, f) =
    (record w { contact = other }, record f { token = ""; name = ""; fingerprint = [] })

run_command-unasked :
    (other : FirstContact) (w : World) (f : Flags) (files : Files)
    → enrolled files ≡ true
    → run_command w f files ≡ (let (w', f') = unasked other (w, f) in run_command w' f' files)
unfolding run
run_command-unasked other w f files h =
    let (w', f') = unasked other (w, f) in
    run_command-runs w f files h ∙ sym (run_command-runs w' f' files h)

run_command-enrolled :
    (w : World) (f : Flags) (files : Files)
    → enrolled files ≡ true
    → enrolled (run_command w f files).1 ≡ true
run_command-enrolled w f files h =
    rw (run_command-runs w f files h) (elim (Bool-cases (f.server =s= "")) [
      | inl e ↦ rw e h
      | inr e ↦ rw e (run-enrolled w f files h)
    ])

-- An agent that has an identity keeps one, however often it is started and whatever its starts meet; and
-- all of it is as if no start had a token: none asks a control plane to enroll it again.
pub restarts-unasked :
    (starts : List (World × Flags)) (other : FirstContact) (files : Files)
    → enrolled files ≡ true
    → (enrolled (restarts starts files).1 ≡ true)
      × (restarts starts files ≡ restarts (map (unasked other) starts) files)
unfolding restarts
restarts-unasked [] other files h = (h, refl)
restarts-unasked ((w, f) ∷ starts) other files h =
    let (kept, same) =
      restarts-unasked starts other (run_command w f files).1 (run_command-enrolled w f files h) in
    let starts' = map (unasked other) starts in
    (
      kept,
      ap (λ q. ((run_command w f files).0 ∷ q.0, q.1)) same
          ∙ ap (λ p. (p.0 ∷ (restarts starts' p.1).0, (restarts starts' p.1).1))
              (run_command-unasked other w f files h),
    )
