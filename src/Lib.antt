-- ===== src/Lib.antt =====
-- Verification of pinus-smart-awg, a Windows client for AmneziaWG tunnels that routes traffic by
-- rules. A profile is a text of the wg-quick format. `core/conf` reads it into a configuration,
-- checks its AmneziaWG settings, and writes it back, for a file or for the driver (UAPI).
-- `client/smart` keeps the routing settings of a profile and turns the two into the rules of a
-- routing engine; its explanation of a route answers the same question for the user.
-- `client/manager` is the service that starts and stops tunnels and keeps the routing alive:
-- requests and power events reach a supervisor, which calls for recoveries. `client/updater` finds
-- newer installers in a signed list, and `client/ringlogger` keeps the log.
--
-- The parts and their files:
--   Common      tests into Bool, lists, results of calls that can fail
--   Text        byte strings with the parts of Go's library that the source calls: strings
--               (Text/Search, Text/Trim, Text/Case), strconv (Text/Number), encoding/base64 and
--               encoding/hex (Text/Base64, Text/Hex), net.ParseIP and IP.String (Text/Ip)
--   Conf        core/conf/config.go: Config, Interface, Peer, Endpoint, IPCidr, Key
--   Conf/Network  core/conf/config.go: IntersectsWith, DeduplicateNetworkEntries, Redact
--   Conf/Range  core/conf/awg_validation.go: ParseAWGRange, ParseAWGBool
--   Conf/Cps    core/conf/awg_validation.go: ValidateCPS
--   Conf/Validation  core/conf/awg_validation.go: ValidateAWG, ProtocolDescription
--   Conf/Name   core/conf/name.go: TunnelNameIsValid, TunnelNameIsLess
--   Conf/Values core/conf/parser.go: the parsers of single values
--   Conf/QuickKeys, Conf/Quick  core/conf/parser.go: FromWgQuick, by its keys and by its lines
--   Conf/Uapi   core/conf/parser.go: FromUAPI
--   Conf/Writer core/conf/writer.go: ToWgQuick, ToUAPI
--   Smart, Smart/Settings  client/smart/settings.go: RoutingSettings, Normalized
--   Smart/Values    client/smart/settings.go: normalizeDomain, normalizeCIDR, normalizeApplication
--   Smart/Catalog   client/smart/catalog.go: the built-in services
--   Smart/Regional  client/smart/regional.go: ServiceUsesVPN, WithServiceVPN
--   Smart/Rules     client/smart/smart.go: the route rules of BuildConfig
--   Smart/Profile, Smart/Build  client/smart/smart.go: awgEndpoint, detectProfileFamilies,
--               dnsServers, BuildConfig
--   Smart/Explain   client/smart/explain.go: ExplainRoute
--   Smart/Dns       client/smart/dns_policy.go: policyDNSRules
--   Manager/Switch  client/manager/native_switch.go: planNativeSwitch, executeNativeSwitch,
--               stopNativeTunnelsLocked
--   Manager/Power   client/manager/power_events.go: handleSmartPowerEvent
--   Manager/Supervisor  client/manager/smart_supervisor.go: the loop of smartRecoverySupervisor
--   Manager/Routes      client/manager/smart_supervisor.go: selectSmartDefaultRouteIndexes
--   Manager/Fallback    client/manager/fallback.go: recoverWithFallbacks
--   Updater/Versions, Updater/Signify  client/updater/versions.go, signify.go
--   Ringlogger  client/ringlogger/ringlogger.go: WriteWithTimestamp, WriteTo, FollowFromCursor
--   Tests       runs on concrete inputs
--
-- A Go string is a list of bytes and a rune a number. Integers of a fixed width are natural
-- numbers that the parsers bound; a Go map is an association list. The lower case of a rune above
-- ASCII is a parameter `lower`; name resolution is the parameter `resolve` of the UAPI writer, and
-- what the normalisers of rules take from net/url, IDNA, net.ParseCIDR and filepath, with the check
-- of a signed catalog, is the interface `Normalizers` of Smart/Values. A slice out of range in `FromWgQuick` is the error
-- `slice_panic`. Loops over text recurse on the text; `cps_loop` and the splitting into tokens take
-- the length of the text as fuel, and each round consumes at least one byte.
--
-- Callbacks are answered by functions of the calls made so far: stopping, waiting and installing in
-- Manager/Switch, starting in Manager/Fallback; what the supervisor asks of its surroundings at an
-- event is a record of answers. The pauses of Manager/Power run at any later step, in any order.
-- The check of a signature, `Verify`, and the number of this program are arguments in Updater.
-- A Go `select` is the sequence of the events that it takes; the channel of a timer is taken only
-- when its time has come. The array of the log is a function of the index, and its reading takes
-- 2048 rounds.
--
-- Not modelled: files, encryption and the registry, Windows services and processes, firewall and
-- interfaces, the user interface, downloads, races between writers of the log, and the vendored
-- driver; the JSON text of BuildConfig.
pub mod Common
pub mod Text
pub mod Conf
pub mod Smart
pub mod Manager
pub mod Updater
pub mod Ringlogger
mod Tests
