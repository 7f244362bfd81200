-- ===== src/Blobcache/Replies.antt =====
-- What the proxy of internal/blobcache/blobcache.go writes to its client.
use regcachectl.Base.{ℕ, [], ◌∷◌, ◌++◌, if◌then◌else◌, length}
use regcachectl.Text.{Text, codes, newline, is_empty, itoa}
use regcachectl.Blobcache.Types.{header, Response, Reply}

pub digest_header : Text
digest_header = codes "Docker-Content-Digest"

pub type_header : Text
type_header = codes "Content-Type"

pub length_header : Text
length_header = codes "Content-Length"

pub cache_header : Text
cache_header = codes "X-Cache"

pub location_header : Text
location_header = codes "Location"

pub octets : Text
octets = codes "application/octet-stream"

pub hit : Text
hit = codes "HIT"

pub miss : Text
miss = codes "MISS"

pub no_location : Text
no_location = codes "redirect without Location"

-- `http.Error`
pub http_error : Text → ℕ → Reply
http_error text status = record {
  status = status;
  headers =
      (type_header, codes "text/plain; charset=utf-8")
      ∷ (codes "X-Content-Type-Options", codes "nosniff")
      ∷ [];
  body = text ++ newline ∷ [];
}

unfoldable pub hit_reply : Text → Text → Reply
hit_reply digest content = record {
  status = 200;
  headers =
      (digest_header, digest)
      ∷ (type_header, octets)
      ∷ (length_header, itoa (length content))
      ∷ (cache_header, hit)
      ∷ [];
  body = content;
}

unfoldable pub miss_reply : Text → Response → Reply
miss_reply digest resp =
    let cl = header length_header resp.headers in
    record {
      status = 200;
      headers =
          (digest_header, digest)
            ∷ (type_header, octets)
            ∷ (if is_empty cl then [] else (length_header, cl) ∷ [])
          ++ (cache_header, miss) ∷ [];
      body = resp.body;
    }

-- A non-200 with its headers, by `copyHeader`.
pub relayed_reply : Response → Reply
relayed_reply resp = record { status = resp.status; headers = resp.headers; body = resp.body }
