-- ===== src/WorkerClient/Urls.antt =====
-- pkg/workerclient/client.go: how the URLs that a client builds are read at the server, by package
-- net/url.

use Prim.Native.String.{◌++◌}
use Prim.Native.Char.{code}
use text.Mathlib.Text.{starts_with}
use job_raft.Base.{◌≡◌, String, Bool, true, false, ◌&&◌, ◌||◌, ◌==◌, if◌then◌else◌, leb, eq_ℕ}
use job_raft.WorkerClient.{Wire, Outgoing}
use job_raft.Api.{Request}

-- How the Go library reads a URL: the path, as `EscapedPath` has it, its decoded form, and the value
-- of a key in the query.
pub record Urls : Type 0 where
  pub path : String → String
  pub escaped_path : String → String
  pub value : String → String → String

-- The request that arrives at the server of one that a client sends.
unfoldable pub arrives : Urls → Outgoing → Request
arrives urls out = record {
  method = "POST";
  path = urls.path out.url;
  escaped_path = urls.escaped_path out.url;
  query = urls.value out.url;
  header = λ k.
      if k == "Authorization"
      then out.authorization
      else if k == "Content-Type"
      then out.content_type
      else "";
  body = out.body;
}

-- Small letters and slashes, as the routes have them.
unfoldable pub is_plain : String → Bool
is_plain String.[] = true
is_plain (String.◌∷◌ c s) =
    let rest = is_plain s in
    if leb b'a' (code c) && leb (code c) b'z' || eq_ℕ (code c) b'/' then rest else false

-- Small letters, digits and dots, which a query has as they are.
unfoldable pub is_word : String → Bool
is_word String.[] = true
is_word (String.◌∷◌ c s) =
    let rest = is_word s in
    if leb b'a' (code c) && leb (code c) b'z'
      || leb b'0' (code c) && leb (code c) b'9'
      || eq_ℕ (code c) b'.'
    then rest
    else false

-- What package net/url documents of a URL made of `base`, a scheme and a host: the escaped path is what
-- stands behind it, from its first slash up to the question mark, here plain text around an escaped
-- segment; a key of the query has the text behind its equals sign as its value; and without a query
-- it has none.
pub record ReadsUrls {W : Type 0} (wire : Wire W) (urls : Urls) (base : String) : Type 0 where
  pub reads_path :
      (pre id suf : String)
      → starts_with pre "/" ≡ true
      → is_plain pre ≡ true
      → is_plain suf ≡ true
      → (urls.escaped_path (base ++ ((pre ++ wire.escape_path id) ++ suf))
          ≡ (pre ++ wire.escape_path id) ++ suf)
        × ((k : String) → urls.value (base ++ ((pre ++ wire.escape_path id) ++ suf)) k ≡ "")
  pub reads_query :
      (pre id suf k v : String)
      → starts_with pre "/" ≡ true
      → is_plain pre ≡ true
      → is_plain suf ≡ true
      → is_word k ≡ true
      → is_word v ≡ true
      → (urls.escaped_path
            (base ++ (((pre ++ wire.escape_path id) ++ suf) ++ ("?" ++ (k ++ ("=" ++ v)))))
          ≡ (pre ++ wire.escape_path id) ++ suf)
        × (urls.value
              (base ++ (((pre ++ wire.escape_path id) ++ suf) ++ ("?" ++ (k ++ ("=" ++ v)))))
              k
            ≡ v)
