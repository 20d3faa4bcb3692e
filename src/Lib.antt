-- ===== src/Lib.antt =====
-- Verification of the location service of OpenHarmony (base/location): the core of the locator process
-- and of the abilities that it drives.
--
-- An app asks the locator to start locating. The locator keeps the request for the app's callback and
-- in the list of each ability that serves it, and sends each ability a work record of the requests
-- that are requesting and permitted. The ability compares the record with the last one and tells its
-- hardware or its network which requests are new and which have gone. A location that an ability
-- reports goes back to the callbacks, each given what it is permitted to see. When apps are frozen,
-- a background proxy goes on locating for them.
--
-- Files, and the code they are about (paths from the root of the repository):
-- - Base: lists, maps, integers and equality over the native numbers, shared by all files.
-- - Parcel: what is assumed of a parcel, as a record of operations and laws, and a queue that has them.
-- - Common, Env: frameworks/location_common/common/source/common_utils.cpp, the permissions and the
--   names of abilities, and the answers of the system that handlers ask for.
-- - Location: frameworks/location_common/common/source/location.cpp and request_config.cpp.
-- - WorkRecord: services/location_locator/locator/source/work_record.cpp. The specification is a list
--   of rows (Columns), each method is related to it (Rows, Copy, Refines), and parcels are read back
--   (Marshal, RoundTrip).
-- - SubAbility: services/location_locator/locator/source/subability_common.cpp, the work records of an
--   ability. What the ability is told is a list of announcements (Announce); Difference
--   says when they are the difference of the two records.
-- - Request: services/location_locator/locator/source/request.cpp.
-- - Fusion: services/location_locator/locator/source/fusion_controller.cpp.
-- - Background: services/location_locator/locator/source/locator_background_proxy.cpp. Events has the
--   handlers and the threads as a step relation.
-- - RequestManager: services/location_locator/locator/source/request_manager.cpp, with the maps of
--   locator_ability.cpp. `Service` is the state; requests are pointers and stand in a store. Reach has
--   the handlers as a step relation. The other children say what the handlers do to the lists (Lists,
--   Start, Stop, Uids), to the permissions in use (Permission, Balance, BalanceKept) and what they
--   send (Work, Sends).
-- - ReportManager: services/location_locator/locator/source/report_manager.cpp.
-- - LocatorAbility: services/location_locator/locator/source/locator_ability.cpp. Operations has what is
--   not starting, stopping or the uids frozen by proxy.
-- - ErrCode: the codes of interfaces/inner_api/include/constant_definition.h.
-- - Registry: the maps from uids to callbacks of locator_ability.cpp, gnss_ability.cpp and
--   country_code_manager.cpp.
-- - Lifecycle, Mock: what the files of the three abilities below write alike, starting and stopping, and
--   the mocked locations.
-- - GnssAbility: services/location_gnss/gnss/source/gnss_ability.cpp. The driver's answers are a record
--   (Hdi); Connect is about the connection, Protocol and Reach about the order of the calls to the
--   driver, Session about when a session runs, Stuck about a first request without a driver.
-- - NetworkAbility: services/location_network/network/source/network_ability.cpp, with the vendor's
--   service as a record of answers (Nlp).
-- - PassiveAbility: services/location_passive/passive/source/passive_ability.cpp.
-- - CountryCode: services/location_locator/locator/source/country_code_manager.cpp and
--   interfaces/inner_api/include/country_code.h.
-- - ConfigManager: services/location_locator/locator/source/location_config_manager.cpp.
-- - LocatorStub: services/location_locator/locator/source/locator_skeleton.cpp. Handlers has the checks
--   and the reading of each message, Run the call on the state of the locator.
-- - Geocode: frameworks/location_common/common/source/geo_address.cpp and geo_coding_mock_info.cpp.
--   Service is services/location_geocode/geocode/source/geo_convert_service.cpp and its stub, Forward
--   the calls of locator_ability.cpp that lead to it and the reading of the reply in
--   frameworks/native/source/locator_impl.cpp.
-- - Samples: concrete requests and states, for the runs and witnesses in the files named Tests.
--
-- Reading the definitions: a C++ method is a function of the same name in snake case, from the state
-- to the new state. `int` is an integer without a width and a counter is a natural number. The products
-- of an interval in seconds and 1000, in the messages to the network service and in the test of the
-- interval between two reports, are taken to wrap around at 32 bits, where C++ leaves the overflow
-- undefined; no other arithmetic of the modelled code comes near its bounds but differences of times.
-- `double` is a type parameter. The answers of the system (permissions, bundles, accounts, the apps in
-- the foreground, the abilities that can be reached) are the record `Env`, and hold while one handler
-- runs. Messages to other processes are values of a trace. A handler runs from start to end; only the
-- background proxy has threads, which act when they take its lock. A loop goes over a list or over the
-- rounds that the source bounds it by, 30 for the driver and 5 for the network service, so none needs
-- fuel; the events that a handler sends to itself are run one by one, as many as are sent.
--
-- Not modelled: logging, dumps, allocation failures, singletons that are gone, mutexes, the messages by
-- which locator_ability.cpp forwards GNSS calls, the stubs and proxies between processes but those of
-- the locator and of geocoding, the client library but for the addresses that it gets, and the
-- JavaScript bindings.
pub mod Base
pub mod Parcel
pub mod ErrCode
pub mod Registry
pub mod Common
pub mod Env
pub mod Location
pub mod Request
pub mod Fusion
pub mod Background
pub mod RequestManager
pub mod ReportManager
pub mod LocatorAbility
pub mod Samples
pub mod WorkRecord
pub mod SubAbility
pub mod Lifecycle
pub mod Mock
pub mod GnssAbility
pub mod NetworkAbility
pub mod PassiveAbility
pub mod CountryCode
pub mod ConfigManager
pub mod Geocode
pub mod LocatorStub
