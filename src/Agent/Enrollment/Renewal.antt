-- ===== src/Agent/Enrollment/Renewal.antt =====
-- internal/agent/agent.go: the renewal of the client certificate.
use fleet_core.Prelude.{
  ℕ, ◌+◌, ◌≤◌, ◌<◌, String, ◌≡◌, refl, ap, ◌∙◌, Bool, false, Option, none, some, arith, ltb, leb,
}
use fleet_core.Prelude.Exec.{ok}
use fleet_core.Prelude.Bytes.{Text, ascii}
use fleet_core.GoMap.{put}
use fleet_core.GoMap.Laws.{get-put}
use fleet_core.Agent.Enrollment.{
  Response, Files, Keys, load_keys, RenewalWorld, renewal_window, maybe_renew_cert, write_file,
  post_json,
}
use fleet_core.Agent.Enrollment.Files.{HasKeys, load_keys-HasKeys}

post_json-value :
    (w : RenewalWorld) (csr cert : String) (r : Response String)
    → w.answer csr ≡ ok r
    → r.code < 300
    → r.value ≡ ok cert
    → post_json (w.answer csr) ≡ ok cert
unfolding post_json
post_json-value w csr cert r answered code value =
    let fine : leb 300 r.code ≡ false = ground (arith, code) in
    rw answered (rw (post_json, fine) (rw value refl))

write_cert :
    (w : RenewalWorld) (cert : Text) (files : Files)
    → w.writes "cert.pem" ≡ none
    → (write_file w.writes "cert.pem" cert files).1 ≡ put "cert.pem" cert files
unfolding write_file
write_cert w cert files works = rw (write_file, works) refl

put-HasKeys :
    (pair : Text → Text → Option String) (has_certs : Text → Bool) (files : Files) (keys : Keys)
    (cert : Text)
    → HasKeys pair has_certs files keys
    → pair cert keys.key ≡ none
    → HasKeys pair has_certs (put "cert.pem" cert files) (record keys { cert = cert })
put-HasKeys pair has_certs files keys cert h paired = record {
  raw_id = h.raw_id;
  cert = get-put "cert.pem" "cert.pem" cert files;
  key = get-put "cert.pem" "key.pem" cert files ∙ h.key;
  ca = get-put "cert.pem" "ca.pem" cert files ∙ h.ca;
  id = get-put "cert.pem" "machine-id" cert files ∙ h.id;
  mod_key = get-put "cert.pem" "module-pub.pem" cert files ∙ h.mod_key;
  trimmed = h.trimmed;
  paired = paired;
  certs = h.certs;
}

-- A certificate that ends within 30 days is renewed, if the control plane's answer and the write
-- work: the agent loads its identity with the new certificate, and with all else as it was.
pub maybe_renew_cert-load_keys :
    (w : RenewalWorld) (files : Files) (keys : Keys) (pair : Text → Text → Option String)
    (has_certs : Text → Bool) (end : ℕ) (csr cert : String) (r : Response String)
    → HasKeys pair has_certs files keys
    → w.not_after keys.cert ≡ some end
    → end ≤ w.now + renewal_window
    → w.csr keys.key ≡ some csr
    → w.answer csr ≡ ok r
    → r.code < 300
    → r.value ≡ ok cert
    → w.writes "cert.pem" ≡ none
    → pair (ascii cert) keys.key ≡ none
    → load_keys pair has_certs (maybe_renew_cert w files) ≡ ok (record keys { cert = ascii cert })
unfolding maybe_renew_cert
maybe_renew_cert-load_keys w files keys pair has_certs end csr cert r h ends due made answered code
      value works paired =
    let near : ltb (w.now + renewal_window) end ≡ false = ground (arith, due) in
    let posted = post_json-value w csr cert r answered code value in
    let renewed : maybe_renew_cert w files ≡ put "cert.pem" (ascii cert) files =
      rw (maybe_renew_cert, h.cert)
        (rw ends
          (rw near (rw h.key (rw made (rw posted (write_cert w (ascii cert) files works)))))) in
    ap (load_keys pair has_certs) renewed
    ∙ load_keys-HasKeys pair has_certs _ _
        (put-HasKeys pair has_certs files keys (ascii cert) h paired)
