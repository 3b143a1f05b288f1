-- ===== src/Process/Main/Tls.antt =====
-- The TLS configurations of the two servers.
use cluster_api_provider_vmw.Base.{
  String, ◌≡◌, Option, none, some, List, [], ◌∷◌, arith, if◌then◌else◌,
}
use cluster_api_provider_vmw.Process.{CertFiles, TlsOption, disable_http2, certificate_from}
use cluster_api_provider_vmw.Process.Main.{Flags, with_certificate, tls_opts, manager_options}

-- `tls.Config`, as far as it is written here: the certificate comes from the files of a watcher, or
-- from what the server has of its own.
pub record TlsConfig : Type 0 where
  pub next_protos : List String
  pub get_certificate : Option CertFiles

abbrev pub apply_option : TlsOption → TlsConfig → TlsConfig
apply_option disable_http2 c = record c { next_protos = "http/1.1" ∷ [] }
apply_option (certificate_from files) c = record c { get_certificate = some files }

-- A server applies its options in order.
abbrev pub apply_all : List TlsOption → TlsConfig → TlsConfig
apply_all [] c = c
apply_all (o ∷ opts) c = apply_all opts (apply_option o c)

-- What a server should come to.
abbrev pub served : Flags → Option CertFiles → TlsConfig → TlsConfig
served flags files c = record {
  next_protos = if flags.enable_http2 then c.next_protos else ("http/1.1" ∷ []);
  get_certificate = elim files [ none ↦ c.get_certificate | some f ↦ some f ];
}

apply_all-certificate :
    (flags : Flags) (files : Option CertFiles) (c : TlsConfig)
    → apply_all (with_certificate files (tls_opts flags)) c ≡ served flags files c
apply_all-certificate flags none c = ground arith
apply_all-certificate flags (some f) c = ground arith

-- Each of the two servers speaks HTTP/1.1 only unless the flag enables HTTP/2, and takes its
-- certificate from its own watcher, never from that of the other one; without a watcher its
-- certificate is left as it was.
pub manager_options-serve :
    (flags : Flags) (webhook metrics : Option CertFiles) (c : TlsConfig)
    → (apply_all (manager_options flags webhook metrics).webhook c ≡ served flags webhook c)
      × (apply_all (manager_options flags webhook metrics).metrics.tls_opts c
          ≡ served flags metrics c)
manager_options-serve flags webhook metrics c =
    (apply_all-certificate flags webhook c, apply_all-certificate flags metrics c)
