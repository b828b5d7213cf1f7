-- ===== src/Client/Online.antt =====
-- client/python/py_auth_client: what an online check collects and sends: `_check_online_worker` and
-- `_check_online_fast_worker` of auth_client.py, and `fetch_public_ip` of device_utils.py. The two
-- threads of a check only run the queries at once.
pub mod Life
use py_auth.Prelude.{ℕ, String, Bool, ◌||◌, Option, none, some, ◌is◌, if◌then◌else◌, ℤ}
use py_auth.Json.{Fields}
use py_auth.Text.{strip}
use py_auth.Client.Platform.{first_word}
use py_auth.Client.Deadlines.{bounded, online_check_effective_wall}
use py_auth.Client.Wire.{lacks_public_ip, with_public_ip, fast_device_info}
use py_auth.Client.Check.{request_data}
use py_auth.Client.Start.{Host, AuthClient, sdk_of, ensure_full_device_info}

-- the time that `fetch_public_ip` is given, in millionths of a second
unfoldable pub public_ip_deadline : (String → Option ℤ) → String → ℕ
unfolding bounded
public_ip_deadline parse raw = bounded parse 500000 30000000 raw 8000000

-- `_fetch_public_ip_blocking` and `fetch_public_ip`, of the text that the server sends; `none` is an
-- exception or the end of the time. `is_address` is whether `ip_address` takes the text.
unfoldable pub fetch_public_ip : (String → Bool) → Option String → String
unfolding strip first_word
fetch_public_ip is_address none = ""
fetch_public_ip is_address (some text) =
    if strip text is ""
    then ""
    else if is_address (first_word (strip text))
    then first_word (strip text)
    else ""

-- whether the information is still to be collected, or its public address to be asked for
unfoldable pub needs_public_ip : AuthClient → Bool
unfolding lacks_public_ip
needs_public_ip c = c.device_info_deferred || lacks_public_ip c.device_info

-- the time limit of `_check_online`
unfoldable pub check_online_wall : (String → Option ℤ) → String → String → AuthClient → ℕ
unfolding online_check_effective_wall needs_public_ip
check_online_wall parse wall deferred_min c =
    online_check_effective_wall parse wall deferred_min (needs_public_ip c)

-- the information that is sent, if nothing raises, and the client afterwards
abbrev sent_and_kept : AuthClient → Option (Fields × Fields) → Option Fields × AuthClient
sent_and_kept c none = (none, c)
sent_and_kept c (some (sent, kept)) = (some sent, record c { device_info = kept })

-- `_check_online_worker` up to the heartbeat; `fetched` is what the server of addresses sends
unfoldable pub check_online_worker :
    Host → (String → Bool) → Option String → AuthClient → Option Fields × AuthClient
unfolding needs_public_ip fetch_public_ip ensure_full_device_info with_public_ip
check_online_worker h is_address fetched c =
    let public_ip = if needs_public_ip c then fetch_public_ip is_address fetched else "" in
    let c' = ensure_full_device_info h c in
    sent_and_kept c' (with_public_ip public_ip c'.device_info)

-- `_check_online_fast_worker` up to the heartbeat, which leaves the client
unfoldable pub check_online_fast_worker : Host → String → AuthClient → Option Fields
unfolding fast_device_info
check_online_fast_worker h platform c =
    fast_device_info c.software_version (sdk_of h) c.hostname platform c.device_info

-- the body of the heartbeat
unfoldable pub heartbeat_body : AuthClient → Fields → ℕ → Fields
unfolding request_data
heartbeat_body c sent heartbeat_times =
    request_data c.device_id c.software_name sent heartbeat_times
