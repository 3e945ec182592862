-- ===== src/Remote/Client/Examples.antt =====
-- A client of one cluster, and a server that answers it.
use zeus_gslb.Prelude.{◌≡◌, ◌↔◌, refl, Text, text, true, false, some, arith}
use zeus_gslb.Prelude.Result.{ok}
use zeus_gslb.Remote.Url.Query.{first_value}
use zeus_gslb.Remote.Client.{
  Client, Response, Net, new_client, bundle_url, events_url, fetch_bundle, max_bundle_bytes,
  trim_slashes,
}
use zeus_gslb.Remote.Client.Addresses.{new_client-urls}
use zeus_gslb.Remote.Client.Fetching.{Fetched, fetch_bundle-ok}

abbrev base : Text
base = text "https://zeus//"

abbrev cluster : Text
cluster = text "a b&c=1%#"

abbrev client : Client
client = new_client base cluster (text "t")

trims : client.base_url ≡ text "https://zeus"
unfolding new_client trim_slashes
trims = refl

new_client-urls_example :
    (first_value (text "cluster") (bundle_url (new_client base cluster (text "t"))) ≡ some cluster)
    × (first_value (text "cluster") (events_url (new_client base cluster (text "t")))
        ≡ some cluster)
new_client-urls_example = new_client-urls base cluster (text "t") refl refl (omega arith)

abbrev net : Net
net = record {
  builds = λ m u. true;
  exchange = λ h r. some (record { status = 200; body = text "{}"; broken = false });
}

fetches : fetch_bundle net client ≡ ok (text "{}")
fetches = (fetch_bundle-ok net client (text "{}")).1 (
  record { status = 200; body = text "{}"; broken = false },
  record {
    answered = record { built = refl; answer = refl };
    status = refl;
    unbroken = λ h. absurd (cc h);
    bytes = unfold max_bundle_bytes in refl;
  },
)

fetch_bundle-ok_example :
    (fetch_bundle net client ≡ ok (text "{}")) ↔ ((a : Response) × Fetched net client (text "{}") a)
fetch_bundle-ok_example = fetch_bundle-ok net client (text "{}")
